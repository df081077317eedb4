-- ===== src/World/Scenarios/Hidden.antt =====
-- A start between the last sections of another run.
use cmek.Base.{ℕ, ◌≡◌, refl, [], some, false}
use cmek.Metrics.Card.{
  set_scenario, set_targets, is_empty, IsMarked, set_targets-IsMarked, clear_targets-IsMarked,
}
use cmek.World.Scenarios.{
  Scenario, Stage, ends_at, launch, free_slot, leave_targets, hide_card, Step,
}
use cmek.World.Scenarios.Showing.{set_scenario-IsMarked}

-- The sections that the model allows, one after another.
pub data Steps : Stage → Stage → Type 0 where
  stays : (s : Stage) → Steps s s
  goes : (s s' s'' : Stage) → Step s s' → Steps s' s'' → Steps s s''

-- Any start that comes in between is lost on the card: when a run has freed the slot and another
-- scenario is started before it clears the targets and the card, the other one runs on while the
-- card is idle and no tenant is in the affected set.
pub hidden_start :
    (now : ℕ) (sc other : Scenario) (s : Stage)
    → s.cur ≡ some sc
    → s.is_stopping ≡ false
    → is_empty other.name ≡ false
    → IsMarked s.card
    → let s' = hide_card now (leave_targets (launch now other (free_slot s))) in
      Steps s s'
      × (s'.cur ≡ some other)
      × (s'.card.name ≡ [])
      × ((i : ℕ) → s'.card.affected i ≡ false)
unfolding hide_card leave_targets launch free_slot set_scenario
hidden_start now sc other s q r h m =
    let s1 = free_slot s in
    let s2 = launch now other s1 in
    let s3 = leave_targets s2 in
    let ends = ends_at now other.first in
    let marked =
      set_scenario-IsMarked now other.name other.first.name ends (set_targets other.targets s.card)
        (set_targets-IsMarked other.targets s.card m) in
    (
      Steps.goes s s1 (hide_card now s3) (Step.frees sc s q) (
          Steps.goes s1 s2 (hide_card now s3) (Step.starts now other s1 refl r h) (
            Steps.goes s2 s3 (hide_card now s3) (Step.leaves s.leaving s2 refl) (
              Steps.goes s3 (hide_card now s3) (hide_card now s3) (Step.hides now s.hiding s3 refl)
                (Steps.stays (hide_card now s3))))),
      refl,
      refl,
      clear_targets-IsMarked s2.card marked,
    )
