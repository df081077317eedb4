-- ===== src/World/Wiring/Ranks.antt =====
-- A rank leads to a grid index and back.
use cmek.Base.{
  ℕ, zero, suc, ◌+◌, ◌≡◌, refl, ap, subst, ◌∙◌, arith, List, [], ◌∷◌, get_elem?, All, none, some,
  false, ◌==◌, set_at,
}
use cmek.World.Switches.{Plant}
use cmek.World.Wiring.{fill_by_rank, rank_of_index, rates_of}

-- No grid index twice.
abbrev pub IsDistinct : List ℕ → Type 0
IsDistinct [] = Unit {0}
IsDistinct (i ∷ is) = All (λ j. (j == i) ≡ false) is × IsDistinct is

-- The loop leaves an index alone that it does not meet.
fill-other :
    (x : ℕ → ℕ) (r : ℕ) (perm : List ℕ) (f : ℕ → ℕ) (i : ℕ)
    → All (λ j. (j == i) ≡ false) perm
    → fill_by_rank x r perm f i ≡ f i
unfolding fill_by_rank
fill-other x r [] f i a = refl
fill-other x r (j ∷ perm) f i a =
    fill-other x (suc r) perm (set_at j (x r) f) i a.1 ∙ ground (arith, a.0)

fill-at :
    (x : ℕ → ℕ) (r : ℕ) (perm : List ℕ) (f : ℕ → ℕ) (k i : ℕ)
    → IsDistinct perm
    → get_elem? perm k ≡ some i
    → fill_by_rank x r perm f i ≡ x (r + k)
unfolding fill_by_rank
fill-at x r [] f k i d e = absurd cc
fill-at x r (j ∷ perm) f zero i d e =
    let same : j ≡ i = ap (λ o. elim o [ none ↦ 0 | some m ↦ m ]) e in
    let here : set_at j (x r) f i ≡ x r = ground (arith, same) in
    let next : r ≡ r + 0 = omega arith in
    fill-other x (suc r) perm (set_at j (x r) f) i
      (subst (λ (m : ℕ). All (λ k. (k == m) ≡ false) perm) same d.0)
    ∙ here
    ∙ ap x next
fill-at x r (j ∷ perm) f (suc k) i d e =
    fill-at x (suc r) perm (set_at j (x r) f) k i d.1 e ∙ ap x (omega arith)

-- The tenant at the `k`-th place of the shuffle has the rank k + 1 and the rate of that rank, if the
-- shuffle has no index twice.
pub ranks_back :
    (zipf : ℕ → ℕ) (w : Plant) (k i : ℕ)
    → IsDistinct w.by_rank
    → get_elem? w.by_rank k ≡ some i
    → (rank_of_index w i ≡ k + 1) × (rates_of zipf w i ≡ zipf k)
ranks_back zipf w k i d e = (
  fill-at (λ r. r + 1) 0 w.by_rank (λ i. 0) k i d e ∙ omega arith,
  fill-at zipf 0 w.by_rank (λ i. 0) k i d e ∙ ap zipf (omega arith),
)
