-- ===== src/Generator.antt =====
-- internal/traffic/generator.go: the load generator. Rates and multipliers count parts of a
-- million, instants and gaps are nanoseconds, and a `next` of none is the zero time. The draws of
-- the random source, and with them the gaps, are parameters.
use cmek.Base.{
  ℕ, zero, suc, ◌+◌, ◌-◌, ◌*◌, ◌/◌, ◌≤◌, ◌≡◌, arith, Bytes, codes, List, [], ◌∷◌, ◌++◌, length,
  Option, none, some, Bool, true, false, ltb, min, set_at, if◌then◌else◌,
}

-- What `mu` guards, and the rates of the tenants.
pub record Generator : Type 0 where
  pub rates : ℕ → ℕ
  pub is_on : Bool
  pub mult : ℕ → ℕ
  pub global : ℕ
  pub seq : ℕ → ℕ

abbrev pub new_generator : (ℕ → ℕ) → Generator
new_generator rates = record {
  rates = rates;
  is_on = false;
  mult = λ i. 1_000_000;
  global = 1_000_000;
  seq = λ i. 0;
}

unfoldable pub rate : Generator → ℕ → ℕ
rate g i = g.rates i * g.mult i / 1_000_000 * g.global / 1_000_000

abbrev pub set_running : Bool → Generator → Generator
set_running on g = record g { is_on = on }

abbrev pub set_multiplier : ℕ → ℕ → Generator → Generator
set_multiplier i x g = record g { mult = set_at i x g.mult }

abbrev pub set_global : ℕ → Generator → Generator
set_global x g = record g { global = x }

unfoldable pub next_seq : ℕ → Generator → ℕ × Generator
next_seq i g = (g.seq i + 1, record g { seq = set_at i (g.seq i + 1) g.seq })

unfoldable pub pad : ℕ → Bytes
pad zero = []
pad (suc n) = codes "x" ++ pad n

-- `Payload`; `digits` prints the sequence number.
unfoldable pub payload : (ℕ → Bytes) → Bytes → ℕ → ℕ → Bytes → Bytes
unfolding pad
payload digits tenant seq size prefix =
    let head =
      codes "{\"tenant\":\""
      ++ tenant
      ++ codes "\",\"seq\":"
      ++ digits seq
      ++ codes ",\"canary\":\""
      ++ prefix
      ++ tenant
      ++ codes "\",\"event\":\"order.created\",\"pad\":\"" in
    head ++ pad (size - length head - 2) ++ codes "\"}"

-- The arrival from which the next gap is counted, at the clock's reading `now`: the schedule starts
-- anew when there is none or when the loop is more than a second behind.
unfoldable pub base : Option ℕ → ℕ → ℕ
base none now = now
base (some next) now = if ltb (next + 1_000_000_000) now then now else next

-- One round of `loop` for a tenant with a positive rate: the next scheduled arrival and how long to
-- wait for it, at most the gap.
unfoldable pub schedule : Option ℕ → ℕ → ℕ → ℕ × ℕ
unfolding base
schedule next now gap = let at = base next now + gap in (at, min (at - now) gap)

-- What a round sees: the clock, the gap drawn, whether the rate is positive, and whether the loop
-- still runs after the wait.
pub record Round : Type 0 where
  pub now : ℕ
  pub gap : ℕ
  pub has_rate : Bool
  pub is_on : Bool

-- One round: whether an event is sent, and the arrival that the next round counts from.
unfoldable pub round : Option ℕ → Round → Bool × Option ℕ
unfolding schedule
round next r =
    if r.has_rate
    then if r.is_on then (true, some (schedule next r.now r.gap).0) else (false, none)
    else (false, none)

-- The arrival after all rounds.
unfoldable pub rounds : Option ℕ → List Round → Option ℕ
unfolding round
rounds next [] = next
rounds next (r ∷ rs) = rounds (round next r).1 rs

abbrev pub total_gap : List Round → ℕ
total_gap [] = 0
total_gap (r ∷ rs) = r.gap + total_gap rs

-- Every round sends and none finds the schedule more than a second behind its clock.
abbrev pub Keeps : ℕ → List Round → Type 0
Keeps next [] = Unit
Keeps next (r ∷ rs) =
    (r.has_rate ≡ true)
    × (r.is_on ≡ true)
    × (r.now ≤ next + 1_000_000_000)
    × Keeps (next + r.gap) rs

-- The offered rate does not drift: while the loop runs and is never more than a second behind, the
-- scheduled arrival is the first one plus all gaps drawn since, however late the rounds wake up and
-- however long the front door takes.
pub rounds-exact :
    (next : ℕ) (rs : List Round)
    → Keeps next rs
    → rounds (some next) rs ≡ some (next + total_gap rs)
unfolding rounds round schedule base
rounds-exact next [] k = ground arith
rounds-exact next (r ∷ rs) k = ground (arith, rounds-exact (next + r.gap) rs k.3)
