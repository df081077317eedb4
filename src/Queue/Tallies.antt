-- ===== src/Queue/Tallies.antt =====
-- What each statement does to the counts of the rows.
use cmek.Base.{
  ℕ, zero, suc, ◌+◌, ◌<◌, ◌≡◌, refl, ap, subst, Bool-cases, none, false, ltb, Option, arith, List,
  [], ◌∷◌, some, Bool, true, ◌==◌, ◌&&◌, length, All, if◌then◌else◌, inl, inr, Option-cases,
}
use cmek.Queue.Balance.{sum_below, sum_below-change}
use cmek.Queue.Rows.{
  Row, is_ready, is_claimed, tally, ready_of, claimed_of, dead_of, insert_row, to_ready, to_dead,
  claim_rows, delete_rows, update_rows, first_rows, drop_rows, to_claimed,
}

abbrev pub one_if : Bool → ℕ
one_if b = if b then 1 else 0

pub tally-insert_row :
    (p : Row → Bool) (x : Row) (rs rs' : List Row)
    → insert_row x rs ≡ some rs'
    → tally p rs' ≡ tally p rs + one_if (p x)
unfolding tally insert_row
tally-insert_row p x [] rs' e = ground arith
tally-insert_row p x (r ∷ rs) rs' e = elim (Option-cases (insert_row x rs)) [
  | inl h ↦ ground arith
  | inr (us, h) ↦ ground (arith, tally-insert_row p x rs us h)
]

some_inj : {xs ys : List Row} → some xs ≡ some ys → xs ≡ ys
some_inj {xs = xs} e = ap (λ o. elim o [ none ↦ xs | some zs ↦ zs ]) e

-- What holds of every row is kept by the statements that it survives in the rows they change.
pub All-insert_row :
    (P : Row → Type 0) (x : Row) (rs rs' : List Row)
    → insert_row x rs ≡ some rs'
    → P x
    → All P rs
    → All P rs'
unfolding insert_row
All-insert_row P x [] rs' e l a = subst (All P) (some_inj e) (l, tt)
All-insert_row P x (r ∷ rs) rs' e l a =
    go (x.id == r.id) (ltb x.id r.id) (insert_row x rs) (λ us h. All-insert_row P x rs us h l a.1) e
  where
    go :
        (b c : Bool) (o : Option (List Row))
        → ((us : List Row) → o ≡ some us → All P us)
        → (if b
            then none
            else if c
            then some (x ∷ r ∷ rs)
            else elim o as (λ o. Option (List Row)) [ none ↦ none | some us ↦ some (r ∷ us) ])
          ≡ some rs'
        → All P rs'
    go true c o h q = absurd cc
    go false true o h q = subst (All P) (some_inj q) (l, a)
    go false false none h q = absurd cc
    go false false (some us) h q = subst (All P) (some_inj q) (a.0, h us refl)

-- A claim moves what it returns from the tenant's ready rows to its claimed ones.
pub tally-claim_rows :
    (until i n j : ℕ) (rs : List Row)
    → let (rs', got) = claim_rows until i n rs in
      (tally (ready_of j) rs' + (if j == i then length got else 0) ≡ tally (ready_of j) rs)
      × (tally (claimed_of j) rs' ≡ tally (claimed_of j) rs + (if j == i then length got else 0))
      × (tally (dead_of j) rs' ≡ tally (dead_of j) rs)
unfolding tally claim_rows
tally-claim_rows until i n j [] = ground arith
tally-claim_rows until i zero j (r ∷ rs) = ground arith
tally-claim_rows until i (suc n) j (r ∷ rs) =
    ground (arith, tally-claim_rows until i n j rs, tally-claim_rows until i (suc n) j rs)

pub All-claim_rows :
    (P : Row → Type 0) (until i n : ℕ) (rs : List Row)
    → ((r : Row) → P r → P (to_claimed until r))
    → All P rs
    → All P (claim_rows until i n rs).0
unfolding claim_rows
All-claim_rows P until i n [] h a = a
All-claim_rows P until i zero (r ∷ rs) h a = a
All-claim_rows P until i (suc n) (r ∷ rs) h a = elim (Bool-cases (ready_of i r)) [
  | inl e ↦ rw e (h r a.0, All-claim_rows P until i n rs h a.1)
  | inr e ↦ rw e (a.0, All-claim_rows P until i (suc n) rs h a.1)
]

abbrev pub of_tenant : (Row → Bool) → ℕ → Row → Bool
of_tenant q j r = r.tenant == j && q r

-- Only claimed rows have `q`.
abbrev pub IsOfClaimed : (Row → Bool) → Type 0
IsOfClaimed q = (r : Row) → q r ≡ true → is_claimed r.state ≡ true

pub tally-delete_rows :
    (q : Row → Bool) (j : ℕ) (rs : List Row)
    → IsOfClaimed q
    → (tally (ready_of j) (delete_rows q rs) ≡ tally (ready_of j) rs)
      × (tally (claimed_of j) (delete_rows q rs) + tally (of_tenant q j) rs
          ≡ tally (claimed_of j) rs)
      × (tally (dead_of j) (delete_rows q rs) ≡ tally (dead_of j) rs)
unfolding tally delete_rows
tally-delete_rows q j [] h = ground arith
tally-delete_rows q j (r ∷ rs) h = ground (arith, tally-delete_rows q j rs h, h r)

pub All-delete_rows :
    (P : Row → Type 0) (q : Row → Bool) (rs : List Row) → All P rs → All P (delete_rows q rs)
unfolding delete_rows
All-delete_rows P q [] a = a
All-delete_rows P q (r ∷ rs) a = elim (Bool-cases (q r)) [
  | inl e ↦ rw e (All-delete_rows P q rs a.1)
  | inr e ↦ rw e (a.0, All-delete_rows P q rs a.1)
]

pub tally-to_ready :
    (q : Row → Bool) (j : ℕ) (rs : List Row)
    → IsOfClaimed q
    → (tally (ready_of j) (update_rows q to_ready rs)
        ≡ tally (ready_of j) rs + tally (of_tenant q j) rs)
      × (tally (claimed_of j) (update_rows q to_ready rs) + tally (of_tenant q j) rs
          ≡ tally (claimed_of j) rs)
      × (tally (dead_of j) (update_rows q to_ready rs) ≡ tally (dead_of j) rs)
unfolding tally update_rows
tally-to_ready q j [] h = ground arith
tally-to_ready q j (r ∷ rs) h = ground (arith, tally-to_ready q j rs h, h r)

pub tally-to_dead :
    (q : Row → Bool) (j : ℕ) (rs : List Row)
    → IsOfClaimed q
    → (tally (ready_of j) (update_rows q to_dead rs) ≡ tally (ready_of j) rs)
      × (tally (claimed_of j) (update_rows q to_dead rs) + tally (of_tenant q j) rs
          ≡ tally (claimed_of j) rs)
      × (tally (dead_of j) (update_rows q to_dead rs)
          ≡ tally (dead_of j) rs + tally (of_tenant q j) rs)
unfolding tally update_rows
tally-to_dead q j [] h = ground arith
tally-to_dead q j (r ∷ rs) h = ground (arith, tally-to_dead q j rs h, h r)

pub All-update_rows :
    (P : Row → Type 0) (q : Row → Bool) (f : Row → Row) (rs : List Row)
    → ((r : Row) → P r → P (f r))
    → All P rs
    → All P (update_rows q f rs)
unfolding update_rows
All-update_rows P q f [] h a = a
All-update_rows P q f (r ∷ rs) h a = elim (Bool-cases (q r)) [
  | inl e ↦ rw e (h r a.0, All-update_rows P q f rs h a.1)
  | inr e ↦ rw e (a.0, All-update_rows P q f rs h a.1)
]

-- The rows that an expire takes are ready rows.
pub tally-drop_rows :
    (q : Row → Bool) (n j : ℕ) (rs : List Row)
    → ((r : Row) → q r ≡ true → is_ready r.state ≡ true)
    → (tally (ready_of j) (drop_rows q n rs) + tally (λ r. r.tenant == j) (first_rows q n rs)
        ≡ tally (ready_of j) rs)
      × (tally (claimed_of j) (drop_rows q n rs) ≡ tally (claimed_of j) rs)
      × (tally (dead_of j) (drop_rows q n rs) ≡ tally (dead_of j) rs)
unfolding tally drop_rows first_rows
tally-drop_rows q n j [] h = ground arith
tally-drop_rows q zero j (r ∷ rs) h = ground arith
tally-drop_rows q (suc n) j (r ∷ rs) h =
    ground (arith, tally-drop_rows q n j rs h, tally-drop_rows q (suc n) j rs h, h r)

pub All-drop_rows :
    (P : Row → Type 0) (q : Row → Bool) (n : ℕ) (rs : List Row)
    → All P rs
    → All P (drop_rows q n rs)
unfolding drop_rows
All-drop_rows P q n [] a = a
All-drop_rows P q zero (r ∷ rs) a = a
All-drop_rows P q (suc n) (r ∷ rs) a = elim (Bool-cases (q r)) [
  | inl e ↦ rw e (All-drop_rows P q n rs a.1)
  | inr e ↦ rw e (a.0, All-drop_rows P q (suc n) rs a.1)
]

pub All-first_rows :
    (P : Row → Type 0) (q : Row → Bool) (n : ℕ) (rs : List Row)
    → All P rs
    → All P (first_rows q n rs)
unfolding first_rows
All-first_rows P q n [] a = a
All-first_rows P q zero (r ∷ rs) a = tt
All-first_rows P q (suc n) (r ∷ rs) a = elim (Bool-cases (q r)) [
  | inl e ↦ rw e (a.0, All-first_rows P q n rs a.1)
  | inr e ↦ rw e (All-first_rows P q (suc n) rs a.1)
]

-- Every row is of one of the first `n` tenants.
abbrev pub IsBelow : ℕ → Row → Type 0
IsBelow n r = r.tenant < n

-- Rows that all belong to one tenant count for that tenant alone.
pub tally-own :
    (q : Row → Bool) (i j : ℕ) (rs : List Row)
    → All (λ r. q r ≡ true → r.tenant ≡ i) rs
    → tally (of_tenant q j) rs ≡ (if j == i then tally q rs else 0)
unfolding tally
tally-own q i j [] a = ground arith
tally-own q i j (r ∷ rs) a = ground (arith, tally-own q i j rs a.1, a.0)

-- The counts per tenant add up to the count of all rows.
sum_below-zero : (n : ℕ) → sum_below n (λ i. 0) ≡ 0
sum_below-zero zero = refl
sum_below-zero (suc n) = omega (arith, sum_below-zero n)

pub sum_below-tally :
    (q : Row → Bool) (n : ℕ) (rs : List Row)
    → All (λ r. r.tenant < n) rs
    → sum_below n (λ i. tally (of_tenant q i) rs) ≡ tally q rs
unfolding tally
sum_below-tally q n [] a = sum_below-zero n
sum_below-tally q n (r ∷ rs) a =
    let step =
      sum_below-change n r.tenant (λ i. tally (of_tenant q i) (r ∷ rs))
        (λ i. tally (of_tenant q i) rs) a.0 (λ j ne. ground arith) in
    ground (arith, step, sum_below-tally q n rs a.1)
