-- ===== src/Metrics/Card.antt =====
-- internal/metrics/registry.go: the running scenario's card, the affected set and the baseline. An
-- instant of zero is Go's zero time, and the tenants of a target list are of the population.
use cmek.Base.{
  set_at, ℕ, zero, suc, ◌+◌, ◌-◌, ◌/◌, ◌%◌, ◌≡◌, refl, arith, Bytes, List, [], ◌∷◌, Bool, true,
  false, ltb, leb, not, ◌==◌, ◌&&◌, ◌||◌, if◌then◌else◌, same,
}

pub record Card : Type 0 where
  pub name : Bytes
  pub phase : Bytes
  pub ends_at : ℕ
  pub since : ℕ
  pub cleared_at : ℕ
  pub recovered_at : ℕ
  pub drained_at : ℕ
  pub targets : List ℕ
  pub affected : ℕ → Bool
  -- The ring of the windowed healthy p99s: its size, next slot and number of slots in use.
  pub p99_size : ℕ
  pub p99_head : ℕ
  pub p99_used : ℕ
  pub p99_ring : ℕ → ℕ
  pub baseline : ℕ
  pub last_healthy : ℕ
  pub healthy_rej : ℕ

abbrev pub is_empty : Bytes → Bool
is_empty [] = true
is_empty (b ∷ bs) = false

-- `SetScenario` at the clock's reading `now`.
unfoldable pub set_scenario : ℕ → Bytes → Bytes → ℕ → Card → Card
set_scenario now name phase ends_at c =
    if is_empty name
    then record c {
      name = [];
      phase = [];
      ends_at = 0;
      since = 0;
      cleared_at = 0;
      recovered_at = 0;
      drained_at = 0;
    }
    else record c {
      since = if same c.name name then c.since else now;
      name = name;
      phase = phase;
      ends_at = ends_at;
    }

-- `Scenario`: the name, whether one runs, and since when.
abbrev pub scenario : Card → Bytes × Bool × ℕ
scenario c = (c.name, not (is_empty c.name), c.since)

-- `r.affected[i].Store(b)` for all tenants of a list.
unfoldable pub mark : Bool → List ℕ → (ℕ → Bool) → ℕ → Bool
mark b [] f = f
mark b (i ∷ is) f = mark b is (set_at i b f)

unfoldable pub sum_slots : (ℕ → ℕ) → ℕ → ℕ
sum_slots f zero = 0
sum_slots f (suc n) = sum_slots f n + f n

-- The mean of the ring's slots in use.
abbrev pub mean : Card → ℕ
mean c = if ltb 0 c.p99_used then sum_slots c.p99_ring c.p99_used / c.p99_used else 0

unfoldable pub set_targets : List ℕ → Card → Card
unfolding mark sum_slots
set_targets idx c = record c {
  affected = mark true idx (mark false c.targets c.affected);
  targets = idx;
  baseline = mean c;
  healthy_rej = 0;
  cleared_at = 0;
  recovered_at = 0;
  drained_at = 0;
}

unfoldable pub clear_targets : Card → Card
unfolding mark
clear_targets c = record c { affected = mark false c.targets c.affected; targets = [] }

unfoldable pub set_cleared : ℕ → Card → Card
set_cleared at c = record c { cleared_at = at; recovered_at = 0; drained_at = 0 }

abbrev pub is_set : ℕ → Bool
is_set at = ltb 0 at

-- `Recovered`: the two durations and whether both are known.
unfoldable pub recovered : Card → ℕ × ℕ × Bool
recovered c = (
  if is_set c.recovered_at then c.recovered_at - c.cleared_at else 0,
  if is_set c.drained_at then c.drained_at - c.cleared_at else 0,
  is_set c.recovered_at && is_set c.drained_at,
)

-- `HealthyP99`.
abbrev pub healthy_p99 : Card → ℕ × ℕ × Bool
healthy_p99 c = (c.last_healthy, c.baseline, not (is_empty c.name) && ltb 0 c.baseline)

-- What a tick does here: the healthy p99 enters the ring, then recovery is stamped.
unfoldable pub keep_p99 : ℕ → Card → Card
keep_p99 healthy c = record c {
  p99_ring = set_at c.p99_head healthy c.p99_ring;
  p99_head = (c.p99_head + 1) % c.p99_size;
  p99_used = if ltb c.p99_used c.p99_size then c.p99_used + 1 else c.p99_used;
  last_healthy = healthy;
}

unfoldable pub stamp : ℕ → Bool → ℕ → ℕ → Card → Card
stamp now all_active backlog slack c =
    if is_set c.cleared_at
    then record c {
      recovered_at = if not (is_set c.recovered_at) && all_active then now else c.recovered_at;
      drained_at = if not (is_set c.drained_at) && leb backlog slack then now else c.drained_at;
    }
    else c

abbrev pub is_target : ℕ → List ℕ → Bool
is_target i [] = false
is_target i (j ∷ js) = i == j || is_target i js

pub mark-at :
    (b : Bool) (is : List ℕ) (f : ℕ → Bool) (i : ℕ)
    → mark b is f i ≡ (if is_target i is then b else f i)
unfolding mark
mark-at b [] f i = refl
mark-at b (j ∷ js) f i = ground (arith, mark-at b js (set_at j b f) i)

-- The affected set is the set of targets.
abbrev pub IsMarked : Card → Type 0
IsMarked c = (i : ℕ) → c.affected i ≡ is_target i c.targets

pub set_targets-IsMarked : (idx : List ℕ) (c : Card) → IsMarked c → IsMarked (set_targets idx c)
unfolding set_targets
set_targets-IsMarked idx c m i = ground (
  arith,
  mark-at true idx (mark false c.targets c.affected) i,
  mark-at false c.targets c.affected i,
  m i,
)

pub clear_targets-IsMarked : (c : Card) → IsMarked c → IsMarked (clear_targets c)
unfolding clear_targets
clear_targets-IsMarked c m i = ground (arith, mark-at false c.targets c.affected i, m i)
