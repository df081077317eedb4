-- ===== src/Queue/Fairness.antt =====
-- The ring gives out only tenants that may be dispatched, and it misses none.
use cmek.Base.{
  ℕ, zero, suc, ◌+◌, ◌-◌, ◌%◌, ◌<◌, ◌≤◌, ◌≡◌, refl, arith, Option, none, some, Bool, true, false,
  ltb, not, Option-cases, Bool-cases, inl, inr, ◌⊎◌, subst, ap, ◌∙◌,
}
use native.Mathlib.Nat.{mod-lt, mod-eq_of_lt, add-mod_right}
use native.Mathlib.Decide.{ℕ_discrete}
use cmek.Queue.Scheduler.{View, Ring, admits, scan_from, cursor, scanned, scan, either_class, next}

-- A tenant that the ring may give out.
abbrev pub MayRun : View → ℕ → Type 0
MayRun v i = (0 < v.ready i) × (v.is_hot i ≡ true)

-- Both cursors point at a tenant.
abbrev pub IsRing : Ring → Type 0
IsRing r = (r.cursor_a < r.tenants) × (r.cursor_b < r.tenants)

scan_from-hit :
    (v : View) (want : Bool) (fs : Option ℕ) (n cur k left i : ℕ)
    → 0 < n
    → scan_from v want fs n cur k left ≡ some i
    → (i < n) × (admits v want fs i ≡ true)
unfolding scan_from
scan_from-hit v want fs n cur k zero i p e = cc
scan_from-hit v want fs n cur k (suc left) i p e =
    elim (Bool-cases (admits v want fs ((cur + k) % n))) [
      | inl b ↦ ground (arith, mod-lt (cur + k) p)
      | inr b ↦ ground (arith, scan_from-hit v want fs n cur (k + 1) left i p)
    ]

scan_from-miss :
    (v : View) (want : Bool) (fs : Option ℕ) (n cur k left : ℕ)
    → scan_from v want fs n cur k left ≡ none
    → (m : ℕ) → k ≤ m
    → m < k + left
    → admits v want fs ((cur + m) % n) ≡ false
unfolding scan_from
scan_from-miss v want fs n cur k zero e m l h = absurd (omega arith)
scan_from-miss v want fs n cur k (suc left) e m l h =
    elim (Bool-cases (admits v want fs ((cur + k) % n))) [
      | inl b ↦ ground arith
      | inr b ↦
          let rest : scan_from v want fs n cur (k + 1) left ≡ none = ground arith in
          elim (ℕ_discrete k m) [
            | yes q ↦ subst (λ (x : ℕ). admits v want fs ((cur + x) % n) ≡ false) q b
            | no q ↦ scan_from-miss v want fs n cur (k + 1) left rest m (omega arith) (omega arith)
          ]
    ]

-- Every tenant is at some offset from the cursor.
offset : (n cur i : ℕ) → cur < n → i < n → (m : ℕ) × (m < n) × ((cur + m) % n ≡ i)
offset n cur i lc li = elim (Bool-cases (ltb i cur)) [
  | inl b ↦
      let e : cur + (i + n - cur) ≡ i + n = ground arith in
      (i + n - cur, ground arith, ap (λ (x : ℕ). x % n) e ∙ add-mod_right i n ∙ mod-eq_of_lt li)
  | inr b ↦
      let e : cur + (i - cur) ≡ i = ground arith in
      (i - cur, ground arith, ap (λ (x : ℕ). x % n) e ∙ mod-eq_of_lt li)
]

scan_from-none :
    (v : View) (want : Bool) (fs : Option ℕ) (n cur i : ℕ)
    → cur < n
    → i < n
    → scan_from v want fs n cur 0 n ≡ none
    → admits v want fs i ≡ false
scan_from-none v want fs n cur i lc li e =
    let (m, lm, q) = offset n cur i lc li in
    subst (λ x. admits v want fs x ≡ false) q
      (scan_from-miss v want fs n cur 0 n e m (omega arith) (omega arith))

scan-hit :
    (v : View) (want : Bool) (fs : Option ℕ) (r : Ring) (i : ℕ)
    → IsRing r
    → (scan v want fs r).0 ≡ some i
    → (i < r.tenants) × MayRun v i × IsRing (scan v want fs r).1
unfolding scan scanned
scan-hit v want fs r i w e =
    elim (Option-cases (scan_from v want fs r.tenants (cursor want r) 0 r.tenants)) [
      | inl h ↦ ground arith
      | inr (j, h) ↦
          let (lt, ok) =
            scan_from-hit v want fs r.tenants (cursor want r) 0 r.tenants j (omega arith) h in
          unfold admits in ground (arith, mod-lt (j + 1) {m = r.tenants})
    ]

scan-miss :
    (v : View) (want : Bool) (fs : Option ℕ) (r : Ring)
    → IsRing r
    → (scan v want fs r).0 ≡ none
    → ((scan v want fs r).1 ≡ r) × ((i : ℕ) → i < r.tenants → admits v want fs i ≡ false)
unfolding scan scanned
scan-miss v want fs r w e =
    elim (Option-cases (scan_from v want fs r.tenants (cursor want r) 0 r.tenants)) [
      | inl h ↦ (
        rw (h, scanned) refl,
        λ i li. scan_from-none v want fs r.tenants (cursor want r) i (in_ring want) li h,
      )
      | inr (j, h) ↦ ground arith
    ]
  where
    in_ring : (b : Bool) → cursor b r < r.tenants
    in_ring true = w.0
    in_ring false = w.1

-- What the ring gives out may run: the tenant exists, has a ready message and is admitted by the
-- core now; and both cursors stay on the ring.
pub next-MayRun :
    (v : View) (fs : Option ℕ) (r : Ring) (i : ℕ)
    → IsRing r
    → (next v fs r).0 ≡ some i
    → (i < r.tenants) × MayRun v i × IsRing (next v fs r).1
unfolding next either_class
next-MayRun v fs r i w e =
    let light = ltb r.turn r.light_turns in
    elim (Option-cases (scan v light fs r).0) [
      | inl h ↦
          let (same_ring, none_left) = scan-miss v light fs r w h in
          ground (arith, scan-hit v true none r i w, scan-hit v (not light) fs r i w)
      | inr (j, h) ↦ ground (arith, scan-hit v true none r i w, scan-hit v light fs r i w)
    ]

one_class :
    (v : View) (b : Bool) (fs : Option ℕ) (i : ℕ)
    → admits v b fs i ≡ false
    → admits v (not b) fs i ≡ false
    → (v.ready i ≡ 0) ⊎ (v.is_hot i ≡ false)
unfolding admits
one_class v true fs i p q = ground arith
one_class v false fs i p q = ground arith

-- The ring is work-conserving: when it gives out no tenant, it is as it was, and no tenant has
-- both a ready message and the core's admission.
pub next-work_conserving :
    (v : View) (fs : Option ℕ) (r : Ring) (i : ℕ)
    → IsRing r
    → i < r.tenants
    → (next v fs r).0 ≡ none
    → ((next v fs r).1 ≡ r) × ((v.ready i ≡ 0) ⊎ (v.is_hot i ≡ false))
unfolding next either_class
next-work_conserving v fs r i w li e = elim (Bool-cases r.two_class) [
  | inr b ↦
      let m = scan-miss v true none r w (ground arith) in
      (ground (arith, m.0), unfold admits in ground (arith, m.1 i li))
  | inl b ↦
      let light = ltb r.turn r.light_turns in
      let m = scan-miss v light fs r w (ground arith) in
      let m' = scan-miss v (not light) fs r w (ground (arith, m.0)) in
      (ground (arith, m.0, m'.0), one_class v light fs i (m.1 i li) (m'.1 i li))
]
