-- ===== src/Queue/Balance.antt =====
-- The ledger's own books: every message that was accepted is delivered, expired, ready, claimed or
-- dead, and the two totals are sums over the tenants.
use cmek.Base.{ℕ, zero, suc, ◌+◌, ◌≤◌, ◌<◌, ◌≡◌, ◌≢◌, refl, ap, arith, ltb, if◌then◌else◌}
use native.Mathlib.Decide.{ℕ_discrete}
use cmek.Queue.Ledger.{
  Ledger, backlog_of, note_insert, note_claim, note_ack, note_release, note_dead, note_expire,
}

abbrev pub sum_below : ℕ → (ℕ → ℕ) → ℕ
sum_below zero f = 0
sum_below (suc n) f = f n + sum_below n f

sum_below-congr :
    (n : ℕ) (f g : ℕ → ℕ) → ((j : ℕ) → j < n → f j ≡ g j) → sum_below n f ≡ sum_below n g
sum_below-congr zero f g h = refl
sum_below-congr (suc n) f g h =
    omega (arith, h n (omega arith), sum_below-congr n f g (λ j l. h j (omega arith)))

-- A change at one index changes the sum by as much.
pub sum_below-change :
    (n i : ℕ) (f g : ℕ → ℕ)
    → i < n
    → ((j : ℕ) → j ≢ i → f j ≡ g j)
    → sum_below n f + g i ≡ sum_below n g + f i
sum_below-change zero i f g l h = elim l [ ]
sum_below-change (suc n) i f g l h = elim (ℕ_discrete n i) [
  | yes e ↦ omega (arith, ap f e, ap g e, sum_below-congr n f g (λ j k. h j (λ q. omega arith)))
  | no ne ↦ omega (arith, h n ne, sum_below-change n i f g (omega arith) h)
]

abbrev pub loaded : Ledger → ℕ → ℕ
loaded l i = if ltb 0 (l.ready i + l.claimed i) then 1 else 0

pub record IsBalanced (n : ℕ) (l : Ledger) : Type 0 where
  pub conserved :
      (i : ℕ) → l.accepted i ≡ l.delivered i + l.ready i + l.claimed i + l.expired i + l.dead i
  pub total : l.total ≡ sum_below n (backlog_of l)
  pub backlogged : l.backlogged ≡ sum_below n (loaded l)

le-sum_below : (n i : ℕ) (f : ℕ → ℕ) → i < n → f i ≤ sum_below n f
le-sum_below zero i f l = elim l [ ]
le-sum_below (suc n) i f l = elim (ℕ_discrete n i) [
  | yes e ↦ omega (arith, ap f e)
  | no ne ↦ omega (arith, le-sum_below n i f (omega arith))
]

-- A tenant's share of the totals.
pub share_le :
    (n i : ℕ) (l : Ledger)
    → i < n
    → IsBalanced n l
    → (l.ready i + l.claimed i ≤ l.total) × (loaded l i ≤ l.backlogged)
share_le n i l lt b =
    let p = le-sum_below n i (backlog_of l) lt in
    let q = le-sum_below n i (loaded l) lt in
    (unfold backlog_of in omega (arith, b.total, p), omega (arith, b.backlogged, q))

-- An operation on tenant `i` keeps the books if it does so at `i`, and moves the totals by what it
-- does at `i`.
IsBalanced-step :
    (n i : ℕ) (l m : Ledger)
    → i < n
    → ((j : ℕ) → j ≢ i → (m.ready j ≡ l.ready j) × (m.claimed j ≡ l.claimed j))
    → ((j : ℕ) → m.accepted j ≡ m.delivered j + m.ready j + m.claimed j + m.expired j + m.dead j)
    → m.total + (l.ready i + l.claimed i) ≡ l.total + (m.ready i + m.claimed i)
    → m.backlogged + loaded l i ≡ l.backlogged + loaded m i
    → IsBalanced n l
    → IsBalanced n m
unfolding backlog_of
IsBalanced-step n i l m lt h conserved total backlogged b =
    let p =
      sum_below-change n i (backlog_of l) (backlog_of m) lt
        (λ j ne. unfold backlog_of in omega (arith, h j ne)) in
    let q =
      sum_below-change n i (loaded l) (loaded m) lt (λ j ne. let r = h j ne in ground arith) in
    record {
      conserved = conserved;
      total = omega (arith, b.total, p);
      backlogged = omega (arith, b.backlogged, q);
    }

pub note_insert-IsBalanced :
    (n i : ℕ) (l : Ledger) → i < n → IsBalanced n l → IsBalanced n (note_insert i l)
unfolding note_insert backlog_of
note_insert-IsBalanced n i l lt b =
    IsBalanced-step n i l (note_insert i l) lt (λ j ne. ground arith)
      (λ j. let q = b.conserved j in ground arith) (ground arith) (ground arith) b

pub note_claim-IsBalanced :
    (n i k : ℕ) (l : Ledger)
    → i < n
    → k ≤ l.ready i
    → IsBalanced n l
    → IsBalanced n (note_claim i k l)
unfolding note_claim
note_claim-IsBalanced n i k l lt le b =
    IsBalanced-step n i l (note_claim i k l) lt (λ j ne. ground arith)
      (λ j. let q = b.conserved j in ground arith) (ground arith) (ground arith) b

pub note_release-IsBalanced :
    (n i k : ℕ) (l : Ledger)
    → i < n
    → k ≤ l.claimed i
    → IsBalanced n l
    → IsBalanced n (note_release i k l)
unfolding note_release
note_release-IsBalanced n i k l lt le b =
    IsBalanced-step n i l (note_release i k l) lt (λ j ne. ground arith)
      (λ j. let q = b.conserved j in ground arith) (ground arith) (ground arith) b

pub note_ack-IsBalanced :
    (n i k : ℕ) (l : Ledger)
    → i < n
    → k ≤ l.claimed i
    → IsBalanced n l
    → IsBalanced n (note_ack i k l)
unfolding note_ack
note_ack-IsBalanced n i k l lt le b =
    let s = share_le n i l lt b in
    IsBalanced-step n i l (note_ack i k l) lt (λ j ne. ground arith)
      (λ j. let q = b.conserved j in ground arith) (ground (arith, s)) (ground (arith, s)) b

pub note_dead-IsBalanced :
    (n i k : ℕ) (l : Ledger)
    → i < n
    → k ≤ l.claimed i
    → IsBalanced n l
    → IsBalanced n (note_dead i k l)
unfolding note_dead
note_dead-IsBalanced n i k l lt le b =
    let s = share_le n i l lt b in
    IsBalanced-step n i l (note_dead i k l) lt (λ j ne. ground arith)
      (λ j. let q = b.conserved j in ground arith) (ground (arith, s)) (ground (arith, s)) b

pub note_expire-IsBalanced :
    (n i k : ℕ) (l : Ledger)
    → i < n
    → k ≤ l.ready i
    → IsBalanced n l
    → IsBalanced n (note_expire i k l)
unfolding note_expire
note_expire-IsBalanced n i k l lt le b =
    let s = share_le n i l lt b in
    IsBalanced-step n i l (note_expire i k l) lt (λ j ne. ground arith)
      (λ j. let q = b.conserved j in ground arith) (ground (arith, s)) (ground (arith, s)) b
