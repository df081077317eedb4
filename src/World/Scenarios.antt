-- ===== src/World/Scenarios.antt =====
-- internal/world/scenarios.go: the runner's slot and what the metrics show of it. A run ends in
-- three sections: it frees the slot, then clears the targets, then the card.
pub mod Showing
pub mod Hidden
pub mod Tail
use cmek.Base.{
  ℕ, zero, suc, ◌+◌, ◌-◌, ◌≡◌, Bytes, codes, same, List, [], ◌∷◌, Map, lookup, Option, none, some,
  Bool, true, false, ltb, is_some, ◌||◌, ◌&&◌, ◌==◌, if◌then◌else◌,
}
use cmek.Metrics.Card.{
  Card, set_scenario, set_targets, clear_targets, set_cleared, keep_p99, stamp, is_empty,
}

-- A phase; a duration of zero is open-ended.
pub record Phase : Type 0 where
  pub name : Bytes
  pub dur : ℕ

-- A scenario: its name, its affected set, its first phase and the others.
pub record Scenario : Type 0 where
  pub name : Bytes
  pub targets : List ℕ
  pub first : Phase
  pub others : List Phase

-- The fields of `scenarios` with the metrics' card; `signal` is whether the run's channel holds its
-- token, and `leaving` and `hiding` count the runs between their last sections.
pub record Stage : Type 0 where
  pub cur : Option Scenario
  pub is_stopping : Bool
  pub target : Option ℕ
  pub signal : Bool
  pub card : Card
  pub leaving : ℕ
  pub hiding : ℕ

-- The countdown of a phase that begins at `now`.
abbrev pub ends_at : ℕ → Phase → ℕ
ends_at now p = if ltb 0 p.dur then now + p.dur else 0

abbrev only : List ℕ → Option ℕ
only (i ∷ []) = some i
only _ = none

-- What `StartScenario` does past its checks. The readings of the clock in one section are taken as
-- one, and what a phase does to the World is not part of the stage.
unfoldable pub launch : ℕ → Scenario → Stage → Stage
unfolding set_scenario set_targets
launch now sc s = record s {
  cur = some sc;
  signal = false;
  target = if same sc.name (codes "key_revocation") then only sc.targets else none;
  card =
      set_scenario now sc.name sc.first.name (ends_at now sc.first) (set_targets sc.targets s.card);
}

pub data Started : Type 0 where
  started busy unknown : Started

abbrev pub start_found : ℕ → Stage → Option Scenario → Started × Stage
start_found now s none = (Started.unknown, s)
start_found now s (some sc) = (Started.started, launch now sc s)

unfoldable pub start_scenario : Map Scenario → ℕ → Bytes → Stage → Started × Stage
unfolding lookup launch
start_scenario defs now name s =
    if is_some s.cur || s.is_stopping
    then (Started.busy, s)
    else start_found now s (lookup name defs)

abbrev pub is_revocation : Option Scenario → Bool
is_revocation none = false
is_revocation (some sc) = same sc.name (codes "key_revocation")

abbrev pub is_at : ℕ → Option ℕ → Bool
is_at i none = false
is_at i (some j) = j == i

-- `restore`: a send on a channel of one slot that does not block.
unfoldable pub signal_restore : ℕ → Stage → Stage
signal_restore idx s =
    if is_revocation s.cur && is_at idx s.target then record s { signal = true } else s

-- `run` at a phase after the first, and the beginning of `tail`.
unfoldable pub enter_phase : ℕ → Scenario → Phase → Stage → Stage
unfolding set_scenario
enter_phase now sc p s = record s { card = set_scenario now sc.name p.name (ends_at now p) s.card }

abbrev pub recovery : ℕ → Phase
recovery tail_min = record { name = codes "recovery"; dur = tail_min }

unfoldable pub begin_tail : ℕ → ℕ → Scenario → Stage → Stage
unfolding enter_phase set_cleared
begin_tail now tail_min sc s =
    enter_phase now sc (recovery tail_min) (record s { card = set_cleared now s.card })

-- The three last sections of `run`.
unfoldable pub free_slot : Stage → Stage
free_slot s = record s { cur = none; signal = false; leaving = suc s.leaving }

unfoldable pub leave_targets : Stage → Stage
unfolding clear_targets
leave_targets s = record s {
  leaving = s.leaving - 1;
  hiding = suc s.hiding;
  card = clear_targets s.card;
}

unfoldable pub hide_card : ℕ → Stage → Stage
unfolding set_scenario
hide_card now s = record s { hiding = s.hiding - 1; card = set_scenario now [] [] 0 s.card }

-- `stop`.
abbrev pub stop : Stage → Stage
stop s = record s { is_stopping = true }

-- A tick of the registry.
unfoldable pub tick_card : ℕ → ℕ → Bool → ℕ → ℕ → Stage → Stage
unfolding keep_p99 stamp
tick_card now healthy all_active backlog slack s = record s {
  card = stamp now all_active backlog slack (keep_p99 healthy s.card);
}

-- One section of any goroutine.
pub data Step : Stage → Stage → Type 0 where
  starts :
      (now : ℕ) (sc : Scenario) (s : Stage)
      → s.cur ≡ none
      → s.is_stopping ≡ false
      → is_empty sc.name ≡ false
      → Step s (launch now sc s)
  enters :
      (now : ℕ) (sc : Scenario) (p : Phase) (s : Stage)
      → s.cur ≡ some sc
      → Step s (enter_phase now sc p s)
  tails :
      (now tail_min : ℕ) (sc : Scenario) (s : Stage)
      → s.cur ≡ some sc
      → Step s (begin_tail now tail_min sc s)
  frees : (sc : Scenario) (s : Stage) → s.cur ≡ some sc → Step s (free_slot s)
  leaves : (n : ℕ) (s : Stage) → s.leaving ≡ suc n → Step s (leave_targets s)
  hides : (now n : ℕ) (s : Stage) → s.hiding ≡ suc n → Step s (hide_card now s)
  signals : (idx : ℕ) (s : Stage) → Step s (signal_restore idx s)
  ticks :
      (now healthy : ℕ) (all_active : Bool) (backlog slack : ℕ) (s : Stage)
      → Step s (tick_card now healthy all_active backlog slack s)
  stops : (s : Stage) → Step s (stop s)
