-- ===== src/World/Scenarios/Showing.antt =====
-- What the card shows of the running scenario.
use cmek.Base.{
  ℕ, suc, ◌≡◌, ◌⊎◌, inl, inr, refl, sym, ap, subst, ◌∙◌, arith, Bytes, List, [], Option, none, some,
  Bool, true, false, ◌&&◌, if◌then◌else◌,
}
use cmek.Metrics.Card.{
  Card, set_scenario, set_targets, clear_targets, set_cleared, keep_p99, stamp, is_set, is_empty,
  is_target, IsMarked, set_targets-IsMarked, clear_targets-IsMarked,
}
use cmek.World.Scenarios.{
  Phase, Scenario, Stage, ends_at, recovery, is_at, is_revocation, launch, signal_restore,
  enter_phase, begin_tail, free_slot, leave_targets, hide_card, tick_card, Step,
}

-- A start whose caller sees the card idle.
abbrev pub IsPolled : (s s' : Stage) → Step s s' → Type 0
IsPolled _ _ (Step.starts now sc s p q r) = s.card.name ≡ []
IsPolled _ _ _ = Unit {0}

-- The stages that can be reached from a given one when every caller polls first.
pub data Polled (begin : Stage) : Stage → Type 0 where
  here : Polled begin begin
  after : (s s' : Stage) → Polled begin s → (t : Step s s') → IsPolled s s' t → Polled begin s'

-- How the card's name and targets stand to the slot.
abbrev Agrees : Option Scenario → Bytes → List ℕ → ℕ → ℕ → Type 0
Agrees (some sc) name targets leaving hiding =
    (name ≡ sc.name)
    × (is_empty sc.name ≡ false)
    × (targets ≡ sc.targets)
    × (leaving ≡ 0)
    × (hiding ≡ 0)
Agrees none name targets leaving hiding =
    ((leaving ≡ 1) × (hiding ≡ 0) × (is_empty name ≡ false))
    ⊎ (((leaving ≡ 0) × (hiding ≡ 1) × (is_empty name ≡ false) × (targets ≡ []))
        ⊎ ((leaving ≡ 0) × (hiding ≡ 0) × (name ≡ []) × (targets ≡ [])))

-- The affected set is that of the targets, and the card and the slot agree.
pub record Shows (s : Stage) : Type 0 where
  pub marked : IsMarked s.card
  pub agrees : Agrees s.cur s.card.name s.card.targets s.leaving s.hiding

set_scenario-targets :
    (now : ℕ) (name phase : Bytes) (ends : ℕ) (c : Card)
    → ((set_scenario now name phase ends c).targets ≡ c.targets)
      × ((set_scenario now name phase ends c).affected ≡ c.affected)
unfolding set_scenario
set_scenario-targets now name phase ends c = ground arith

set_scenario-name :
    (now : ℕ) (name phase : Bytes) (ends : ℕ) (c : Card)
    → is_empty name ≡ false
    → (set_scenario now name phase ends c).name ≡ name
unfolding set_scenario
set_scenario-name now name phase ends c h = rw h refl

pub set_scenario-IsMarked :
    (now : ℕ) (name phase : Bytes) (ends : ℕ) (c : Card)
    → IsMarked c
    → IsMarked (set_scenario now name phase ends c)
set_scenario-IsMarked now name phase ends c m i =
    let h = set_scenario-targets now name phase ends c in rw (h.0, h.1) (m i)

idle-Agrees :
    (name : Bytes) (targets : List ℕ) (leaving hiding : ℕ)
    → name ≡ []
    → Agrees none name targets leaving hiding
    → (leaving ≡ 0) × (hiding ≡ 0)
idle-Agrees name targets leaving hiding n (inl a) = absurd (cc)
idle-Agrees name targets leaving hiding n (inr (inl a)) = absurd (cc)
idle-Agrees name targets leaving hiding n (inr (inr a)) = (a.0, a.1)

launch-Shows :
    (now : ℕ) (sc : Scenario) (s : Stage)
    → is_empty sc.name ≡ false
    → (s.leaving ≡ 0) × (s.hiding ≡ 0)
    → IsMarked s.card
    → Shows (launch now sc s)
unfolding launch set_targets
launch-Shows now sc s r a m =
    let c = set_targets sc.targets s.card in
    let ends = ends_at now sc.first in
    record {
      marked =
          set_scenario-IsMarked now sc.name sc.first.name ends c
            (set_targets-IsMarked sc.targets s.card m);
      agrees = (
        set_scenario-name now sc.name sc.first.name ends c r,
        r,
        (set_scenario-targets now sc.name sc.first.name ends c).0,
        a.0,
        a.1,
      );
    }

enter_phase-Shows :
    (now : ℕ) (sc : Scenario) (p : Phase) (s : Stage)
    → s.cur ≡ some sc
    → Shows s
    → Shows (enter_phase now sc p s)
unfolding enter_phase
enter_phase-Shows now sc p s q v =
    let a : Agrees (some sc) s.card.name s.card.targets s.leaving s.hiding =
      subst (λ o. Agrees o s.card.name s.card.targets s.leaving s.hiding) q v.agrees in
    let ends = ends_at now p in
    record {
      marked = set_scenario-IsMarked now sc.name p.name ends s.card v.marked;
      agrees =
          subst
            (λ o.
              Agrees o (set_scenario now sc.name p.name ends s.card).name
                (set_scenario now sc.name p.name ends s.card).targets s.leaving s.hiding)
            (sym q)
            (
              set_scenario-name now sc.name p.name ends s.card a.1,
              a.1,
              (set_scenario-targets now sc.name p.name ends s.card).0 ∙ a.2,
              a.3,
              a.4,
            );
    }

leave-Agrees :
    (o : Option Scenario) (name : Bytes) (targets : List ℕ) (n hiding : ℕ)
    → Agrees o name targets (suc n) hiding
    → Agrees o name [] n (suc hiding)
leave-Agrees (some sc) name targets n hiding a = absurd (omega (arith, a))
leave-Agrees none name targets n hiding (inl a) = inr (inl (omega arith, omega arith, a.2, refl))
leave-Agrees none name targets n hiding (inr (inl a)) = absurd (omega (arith, a.0))
leave-Agrees none name targets n hiding (inr (inr a)) = absurd (omega (arith, a.0))

hide-Agrees :
    (o : Option Scenario) (name : Bytes) (targets : List ℕ) (leaving n : ℕ)
    → Agrees o name targets leaving (suc n)
    → Agrees o [] targets leaving n
hide-Agrees (some sc) name targets leaving n a = absurd (omega (arith, a))
hide-Agrees none name targets leaving n (inl a) = absurd (omega (arith, a.1))
hide-Agrees none name targets leaving n (inr (inl a)) = inr (inr (a.0, omega arith, refl, a.3))
hide-Agrees none name targets leaving n (inr (inr a)) = absurd (omega (arith, a.1))

either-Shows : (b : Bool) (s s' : Stage) → Shows s → Shows s' → Shows (if b then s else s')
either-Shows true s s' v w = v
either-Shows false s s' v w = w

stamp-Shows :
    (now : ℕ) (all_active : Bool) (backlog slack : ℕ) (c : Card) (s : Stage)
    → Shows (record s { card = c })
    → Shows (record s { card = stamp now all_active backlog slack c })
unfolding stamp
stamp-Shows now all_active backlog slack c s v = split (is_set c.cleared_at) refl
  where
    split :
        (b : Bool)
        → is_set c.cleared_at ≡ b
        → Shows (record s { card = stamp now all_active backlog slack c })
    split true e = rw (e, stamp) (record { marked = v.marked; agrees = v.agrees })
    split false e = rw (e, stamp) v

step-Shows : (s s' : Stage) (t : Step s s') → IsPolled s s' t → Shows s → Shows s'
unfolding free_slot leave_targets clear_targets hide_card signal_restore tick_card keep_p99
    begin_tail set_cleared set_scenario
step-Shows _ _ (Step.starts now sc s p q r) w v =
    launch-Shows now sc s r
      (idle-Agrees s.card.name s.card.targets s.leaving s.hiding w
        (subst (λ o. Agrees o s.card.name s.card.targets s.leaving s.hiding) p v.agrees))
      v.marked
step-Shows _ _ (Step.enters now sc p s q) w v = enter_phase-Shows now sc p s q v
step-Shows _ _ (Step.tails now tail_min sc s q) w v =
    enter_phase-Shows now sc (recovery tail_min) (record s { card = set_cleared now s.card }) q
      (record { marked = v.marked; agrees = v.agrees })
step-Shows _ _ (Step.frees sc s q) w v = record {
  marked = v.marked;
  agrees =
      let a : Agrees (some sc) s.card.name s.card.targets s.leaving s.hiding =
        subst (λ o. Agrees o s.card.name s.card.targets s.leaving s.hiding) q v.agrees in
      inl (omega (arith, a.3), a.4, ap is_empty a.0 ∙ a.1);
}
step-Shows _ _ (Step.leaves n s q) w v = record {
  marked = clear_targets-IsMarked s.card v.marked;
  agrees =
      subst (λ (k : ℕ). Agrees s.cur s.card.name [] k (suc s.hiding)) (omega arith)
        (leave-Agrees s.cur s.card.name s.card.targets n s.hiding
          (subst (λ (k : ℕ). Agrees s.cur s.card.name s.card.targets k s.hiding) q v.agrees));
}
step-Shows _ _ (Step.hides now n s q) w v = record {
  marked = v.marked;
  agrees =
      subst (λ (k : ℕ). Agrees s.cur [] s.card.targets s.leaving k) (omega arith)
        (hide-Agrees s.cur s.card.name s.card.targets s.leaving n
          (subst (λ (k : ℕ). Agrees s.cur s.card.name s.card.targets s.leaving k) q v.agrees));
}
step-Shows _ _ (Step.signals idx s) w v =
    either-Shows (is_revocation s.cur && is_at idx s.target) (record s { signal = true }) s
      (record { marked = v.marked; agrees = v.agrees }) v
step-Shows _ _ (Step.ticks now healthy all_active backlog slack s) w v =
    stamp-Shows now all_active backlog slack (keep_p99 healthy s.card) s
      (record { marked = v.marked; agrees = v.agrees })
step-Shows _ _ (Step.stops s) w v = record { marked = v.marked; agrees = v.agrees }

-- A World in which no scenario runs and the card is idle, with an empty affected set.
abbrev pub IsIdle : Stage → Type 0
IsIdle s =
    (s.cur ≡ none)
    × (s.leaving ≡ 0)
    × (s.hiding ≡ 0)
    × (s.card.name ≡ [])
    × (s.card.targets ≡ [])
    × IsMarked s.card

Polled-Shows : (begin s : Stage) → IsIdle begin → Polled begin s → Shows s
Polled-Shows begin _ i Polled.here = record {
  marked = i.5;
  agrees =
      subst (λ o. Agrees o begin.card.name begin.card.targets begin.leaving begin.hiding) (sym i.0)
        (inr (inr (i.1, i.2, i.3, i.4)));
}
Polled-Shows begin _ i (Polled.after s s' r t w) = step-Shows s s' t w (Polled-Shows begin s i r)

-- While a scenario runs, the card carries its name, and the affected set is exactly its targets, in
-- any interleaving of starts, phases, endings, restores and ticks from an idle World in which every
-- start finds the card idle.
pub running_on_card :
    (begin s : Stage) (sc : Scenario)
    → IsIdle begin
    → Polled begin s
    → s.cur ≡ some sc
    → (s.card.name ≡ sc.name) × ((i : ℕ) → s.card.affected i ≡ is_target i sc.targets)
running_on_card begin s sc i r q =
    let v = Polled-Shows begin s i r in
    let a : Agrees (some sc) s.card.name s.card.targets s.leaving s.hiding =
      subst (λ o. Agrees o s.card.name s.card.targets s.leaving s.hiding) q v.agrees in
    (a.0, λ j. v.marked j ∙ ap (is_target j) a.2)
