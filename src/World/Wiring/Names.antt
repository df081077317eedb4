-- ===== src/World/Wiring/Names.antt =====
-- A tenant's name leads back to its grid index.
use cmek.Base.{
  ℕ, zero, suc, ◌+◌, ◌/◌, ◌%◌, ◌≤◌, ◌<◌, ◌≡◌, ◌≢◌, sym, ap, ◌∙◌, arith, Bytes, List, [], ◌∷◌, ◌++◌,
  some, true, false, ◌==◌, same, same_iff, Bool-cases, inl, inr, codes,
}
use cmek.World.Params.{Params}
use cmek.World.Switches.{find_from, index_of}
use cmek.World.Wiring.{four, tenant_id, ids_from, plant_of}

abbrev digit : Bytes → ℕ → ℕ
digit [] k = 0
digit (b ∷ bs) zero = b
digit (b ∷ bs) (suc k) = digit bs k

true-false : true ≢ false
true-false e = absurd cc

tenant_id-four : (wide : ℕ → Bytes) (i : ℕ) → i < 10_000 → tenant_id wide i ≡ codes "t-" ++ four i
unfolding tenant_id
tenant_id-four wide i p = ground (arith, p)

four_inj : (i j : ℕ) → i < 10_000 → j < 10_000 → four i ≡ four j → i ≡ j
unfolding four
four_inj i j p q e =
    let a : 48 + i / 1000 % 10 ≡ 48 + j / 1000 % 10 = ap (λ b. digit b 0) e in
    let b : 48 + i / 100 % 10 ≡ 48 + j / 100 % 10 = ap (λ b. digit b 1) e in
    let c : 48 + i / 10 % 10 ≡ 48 + j / 10 % 10 = ap (λ b. digit b 2) e in
    let d : 48 + i % 10 ≡ 48 + j % 10 = ap (λ b. digit b 3) e in omega (arith, a, b, c, d, p, q)

abbrev tail2 : Bytes → Bytes
tail2 (a ∷ b ∷ bs) = bs
tail2 bs = []

-- Different numbers below ten thousand have different names.
tenant_id_inj :
    (wide : ℕ → Bytes) (i j : ℕ)
    → i < 10_000
    → j < 10_000
    → tenant_id wide i ≡ tenant_id wide j
    → i ≡ j
tenant_id_inj wide i j p q e =
    four_inj i j p q (ap tail2 (sym (tenant_id-four wide i p) ∙ e ∙ tenant_id-four wide j q))

apart :
    (wide : ℕ → Bytes) (i j : ℕ)
    → i ≤ j
    → same (tenant_id wide i) (tenant_id wide j) ≡ false
    → suc i ≤ j
apart wide i j l e = elim (Bool-cases (i == j)) [
  | inl q ↦
      let k : i ≡ j = ground (arith, q) in
      absurd (
        true-false
          (sym ((same_iff (tenant_id wide i) (tenant_id wide j)).1 (ap (tenant_id wide) k)) ∙ e))
  | inr q ↦ ground (arith, q, l)
]

ids_from-found :
    (wide : ℕ → Bytes) (i left j : ℕ)
    → i ≤ j
    → j < i + left
    → i + left ≤ 10_000
    → find_from i (tenant_id wide j) (ids_from wide i left) ≡ some j
unfolding find_from ids_from
ids_from-found wide i zero j l m n = absurd (omega (arith, l, m))
ids_from-found wide i (suc left) j l m n =
    elim (Bool-cases (same (tenant_id wide i) (tenant_id wide j))) [
      | inl e ↦
          let k : i ≡ j =
            tenant_id_inj wide i j (omega (arith, n)) (omega (arith, m, n))
              ((same_iff (tenant_id wide i) (tenant_id wide j)).0 e) in
          rw e (ap some k)
      | inr e ↦ rw e (
          ids_from-found wide (suc i) left j (apart wide i j l e) (omega (arith, m))
            (omega (arith, n)))
    ]

-- Every tenant of a World is found under its own name, in a World of at most ten thousand.
pub index_of-tenant_id :
    (wide : ℕ → Bytes) (p : Params) (perm : List ℕ) (i : ℕ)
    → i < p.tenants
    → p.tenants ≤ 10_000
    → index_of (plant_of wide p perm) (tenant_id wide i) ≡ some i
unfolding plant_of
index_of-tenant_id wide p perm i l m =
    ids_from-found wide 0 p.tenants i (omega arith) (omega (arith, l)) (omega (arith, m))
