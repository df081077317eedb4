-- ===== src/Sink/Window.antt =====
-- What `DeliveredBetween` reads off the ring is what was delivered.
use cmek.Base.{
  ℕ, zero, suc, ◌+◌, ◌-◌, ◌%◌, ◌≤◌, ◌<◌, ◌≡◌, ◌≢◌, refl, arith, sym, subst, false, ltb, ◌==◌,
  if◌then◌else◌, Bool-cases, inl, inr,
}
use native.Mathlib.Decide.{ℕ_discrete}
use native.Mathlib.Nat.{mod-lt, mod-eq_of_lt, mod-eq-sub-mod, mod-add-mod}
use cmek.Sink.{Lane, new_lane, note_delivery, in_window, count_window, delivered_between}

-- A shorter way round than a full turn ends at another slot.
pub mod-apart : (n s d : ℕ) → 0 < d → d < n → (s + d) % n ≢ s % n
mod-apart n s d p l e = elim (Bool-cases (ltb (s % n + d) n)) [
  | inl b ↦
      let q : (s % n + d) % n ≡ s % n + d = mod-eq_of_lt (ground arith) in
      omega (arith, q, mod-add-mod s n d, e)
  | inr b ↦
      let r : s % n < n = mod-lt s (omega arith) in
      let le : n ≤ s % n + d = ground arith in
      let q : (s % n + d - n) % n ≡ s % n + d - n = mod-eq_of_lt (omega arith) in
      omega (arith, q, mod-eq-sub-mod le, mod-add-mod s n d, e)
]

-- The instants of all deliveries, by sequence number less one, and the lane after the first `k`.
unfoldable pub lane_after : ℕ → (ℕ → ℕ) → ℕ → Lane
unfolding new_lane note_delivery
lane_after size at zero = new_lane size
lane_after size at (suc k) = note_delivery (at k) (lane_after size at k)

lane_after-size : (size k : ℕ) (at : ℕ → ℕ) → 0 < size → (lane_after size at k).size ≡ size
unfolding lane_after
lane_after-size size zero at p = ground arith
lane_after-size size (suc k) at p = lane_after-size size k at p

lane_after-count : (size k : ℕ) (at : ℕ → ℕ) → (lane_after size at k).count ≡ k
unfolding lane_after
lane_after-count size zero at = refl
lane_after-count size (suc k) at = omega (arith, lane_after-count size k at)

-- The ring holds the last `size` deliveries.
lane_after-ring :
    (size k s : ℕ) (at : ℕ → ℕ)
    → 0 < size
    → s < k
    → k ≤ s + size
    → (lane_after size at k).ring (s % size) ≡ at s
unfolding lane_after
lane_after-ring size zero s at p l h = absurd (omega arith)
lane_after-ring size (suc k) s at p l h =
    let e = lane_after-size size k at p in
    let c = lane_after-count size k at in
    rw (e, c)
      (elim (ℕ_discrete s k) [
        | yes q ↦
            subst
              (λ (x : ℕ).
                (if x % size == k % size then at k else (lane_after size at k).ring (x % size))
                ≡ at x)
              (sym q) (ground arith)
        | no q ↦
            let apart : (s + (k - s)) % size ≢ s % size =
              mod-apart size s (k - s) (omega arith) (omega arith) in
            let back : s + (k - s) ≡ k = omega arith in
            let apart' : k % size ≢ s % size = subst (λ (x : ℕ). x % size ≢ s % size) back apart in
            ground (arith, lane_after-ring size k s at p (omega arith) (omega arith))
      ])

-- The deliveries among `left` from the `from`-th on that fall into the window.
unfoldable pub delivered_in : (ℕ → ℕ) → ℕ → ℕ → ℕ → ℕ → ℕ
delivered_in at lo hi from zero = 0
delivered_in at lo hi from (suc left) =
    let rest = delivered_in at lo hi (from + 1) left in
    if in_window lo hi (at from) then suc rest else rest

count_window-delivered_in :
    (size k lo hi from left : ℕ) (at : ℕ → ℕ)
    → 0 < size
    → from + left ≡ k
    → left ≤ size
    → count_window (lane_after size at k) lo hi (from + 1) left ≡ delivered_in at lo hi from left
unfolding count_window delivered_in
count_window-delivered_in size k lo hi from zero at p e l = refl
count_window-delivered_in size k lo hi from (suc left) at p e l =
    let s = lane_after-size size k at p in
    let here = lane_after-ring size k from at p (omega arith) (omega arith) in
    let slot : from + 1 - 1 ≡ from = omega arith in
    rw (slot, s, here)
      (ground (
        arith,
        count_window-delivered_in size k lo hi (from + 1) left at p (omega arith) (omega arith),
      ))

-- After `k` deliveries into a ring of a positive size, `DeliveredBetween` from a sequence number at
-- most that size behind them reports no overrun, counts just the deliveries since then that fall
-- into the window, and resumes at `k`.
pub delivered_between-delivered_in :
    (size k since lo hi : ℕ) (at : ℕ → ℕ)
    → 0 < size
    → since ≤ k
    → k ≤ since + size
    → delivered_between (lane_after size at k) since lo hi
      ≡ (delivered_in at lo hi since (k - since), k, false)
unfolding delivered_between
delivered_between-delivered_in size k since lo hi at p l h =
    let s = lane_after-size size k at p in
    let c = lane_after-count size k at in
    ground (
      arith,
      s,
      c,
      count_window-delivered_in size k lo hi since (k - since) at p (omega arith) (omega arith),
    )
