-- ===== src/World/Scenarios/Tail.antt =====
-- `tail` of internal/world/scenarios.go: the polls after a run's normal end. A poll is what the
-- metrics, the clock and the context answer after one more SnapshotInterval.
use cmek.Base.{
  ℕ, zero, suc, ◌+◌, ◌*◌, ◌≤◌, ◌<◌, ◌≢◌, subst, arith, Bool, ltb, leb, not, ◌&&◌, ◌||◌,
  if◌then◌else◌,
}
use native.Mathlib.Nat.{add-mul}

pub record Poll : Type 0 where
  pub is_cancelled : Bool
  pub elapsed : ℕ
  pub recovered : ℕ
  pub drained : ℕ
  pub is_done : Bool

-- How the tail ends: cut off, or with one of the three lines; or still polling when fuel runs out.
pub data Ending : Type 0 where
  cut_off : Ending
  restored : (recovered drained : ℕ) → Ending
  not_drained : (recovered : ℕ) → Ending
  not_restored : Ending
  polling : Ending

abbrev line : Poll → Ending
line p =
    if p.is_done
    then Ending.restored p.recovered p.drained
    else if ltb 0 p.recovered
    then Ending.not_drained p.recovered
    else Ending.not_restored

-- Whether the card is made open-ended at a poll: once, when the minimum has passed.
abbrev pub opens_card : ℕ → Bool → Poll → Bool
opens_card tail_min was_open p = not was_open && leb tail_min p.elapsed

-- The loop from the `n`-th poll on.
unfoldable pub tail : ℕ → ℕ → (ℕ → Poll) → ℕ → ℕ → Ending
tail tail_min tail_max poll n zero = Ending.polling
tail tail_min tail_max poll n (suc fuel) =
    let rest = tail tail_min tail_max poll (suc n) fuel in
    let p = poll n in
    if p.is_cancelled
    then Ending.cut_off
    else if (p.is_done && leb tail_min p.elapsed) || leb tail_max p.elapsed
    then line p
    else rest

line-ends : (p : Poll) → line p ≢ Ending.polling
line-ends p e = ground arith

-- A poll past the maximum is the last one.
last-ends :
    (tail_min tail_max : ℕ) (poll : ℕ → Poll) (n fuel : ℕ)
    → tail_max ≤ (poll n).elapsed
    → tail tail_min tail_max poll n (suc fuel) ≢ Ending.polling
unfolding tail
last-ends tail_min tail_max poll n fuel l e = ground (arith, line-ends (poll n))

-- The tail ends by ScenarioTailMax: with fuel for one poll more than fit into it, the loop never
-- runs out, if each poll comes at least one interval after the one before.
pub tail-ends :
    (tail_min tail_max interval : ℕ) (poll : ℕ → Poll) (n fuel : ℕ)
    → ((k : ℕ) → k * interval ≤ (poll k).elapsed)
    → 0 < fuel
    → tail_max + interval ≤ (n + fuel) * interval
    → tail tail_min tail_max poll n fuel ≢ Ending.polling
unfolding tail
tail-ends tail_min tail_max interval poll n zero late p f e = absurd (omega (arith, p))
tail-ends tail_min tail_max interval poll n (suc zero) late p f e =
    last-ends tail_min tail_max poll n zero (omega (arith, late n, f, add-mul n 1 interval)) e
tail-ends tail_min tail_max interval poll n (suc (suc fuel)) late p f e =
    let rest =
      tail-ends tail_min tail_max interval poll (suc n) (suc fuel) late (omega arith)
        (subst (λ (k : ℕ). tail_max + interval ≤ k * interval) (omega arith) f) in
    ground (arith, line-ends (poll n), rest)
