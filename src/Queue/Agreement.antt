-- ===== src/Queue/Agreement.antt =====
-- The ledger and the rows agree after every operation of the store.
use cmek.Base.{
  ℕ, ◌≤◌, ◌<◌, ◌≡◌, refl, arith, List, Option, none, some, Bool, true, false, length, All,
}
use cmek.Core.Types.{Envelope}
use cmek.Queue.Ledger.{settle}
use cmek.Queue.Balance.{
  IsBalanced, note_insert-IsBalanced, note_claim-IsBalanced, note_release-IsBalanced,
  note_ack-IsBalanced, note_dead-IsBalanced,
}
use cmek.Queue.Rows.{
  Row, tally, ready_of, claimed_of, dead_of, insert_row, to_ready, to_dead, claim_rows, named,
  is_victim, overdue,
}
use cmek.Queue.Tallies.{
  tally-insert_row, IsBelow, All-insert_row, tally-claim_rows, All-claim_rows, IsOfClaimed,
  tally-delete_rows, All-delete_rows, tally-to_ready, tally-to_dead, All-update_rows, tally-own,
}
use cmek.Queue.Store.{
  Store, Cursor, new_row, inserted, insert_message, changed, claim, ack, release, dead_letter,
}

-- The books are balanced, every row belongs to a tenant, and each counter is a count of rows.
pub record IsAgreed (s : Store) : Type 0 where
  pub balanced : IsBalanced s.tenants s.ledger
  pub known : All (λ r. r.tenant < s.tenants) s.rows
  pub ready : (j : ℕ) → s.ledger.ready j ≡ tally (ready_of j) s.rows
  pub claimed : (j : ℕ) → s.ledger.claimed j ≡ tally (claimed_of j) s.rows
  pub dead : (j : ℕ) → s.ledger.dead j ≡ tally (dead_of j) s.rows

inserted-IsAgreed :
    (i now id : ℕ) (env : Envelope) (o : Option (List Row)) (s : Store)
    → insert_row (new_row now i id env) s.rows ≡ o
    → i < s.tenants
    → IsAgreed s
    → IsAgreed (inserted i o s).1
unfolding inserted
inserted-IsAgreed i now id env none s e l v = v
inserted-IsAgreed i now id env (some rows) s e l v = record {
  balanced = note_insert-IsBalanced s.tenants i s.ledger l v.balanced;
  known =
      All-insert_row (IsBelow s.tenants) (new_row now i id env) s.rows rows e (unfold new_row in l)
        v.known;
  ready = λ j.
      unfold new_row in
      ground (arith, tally-insert_row (ready_of j) (new_row now i id env) s.rows rows e, v.ready j);
  claimed = λ j.
      unfold new_row in
      ground
        (arith, tally-insert_row (claimed_of j) (new_row now i id env) s.rows rows e, v.claimed j);
  dead = λ j.
      unfold new_row in
      ground (arith, tally-insert_row (dead_of j) (new_row now i id env) s.rows rows e, v.dead j);
}

pub insert_message-IsAgreed :
    (fault : Bool) (now i id : ℕ) (env : Envelope) (s : Store)
    → i < s.tenants
    → IsAgreed s
    → IsAgreed (insert_message fault now i id env s).1
unfolding insert_message
insert_message-IsAgreed true now i id env s l v = v
insert_message-IsAgreed false now i id env s l v =
    inserted-IsAgreed i now id env (insert_row (new_row now i id env) s.rows) s refl l v

-- The count is that of the rows that the claim took.
abbrev pub IsCounted : Cursor → Type 0
IsCounted (Cursor.lost n) = ⊥
IsCounted _ = Unit {0}

changed-IsCounted : (cur : Cursor) (got : List Row) → IsCounted cur → changed cur got ≡ length got
unfolding changed
changed-IsCounted Cursor.drained got h = refl
changed-IsCounted (Cursor.stopped n) got h = refl
changed-IsCounted (Cursor.lost n) got h = absurd h

pub claim-IsAgreed :
    (fault : Bool) (cur : Cursor) (until i n : ℕ) (s : Store)
    → i < s.tenants
    → IsCounted cur
    → IsAgreed s
    → IsAgreed (claim fault cur until i n s).1
unfolding claim
claim-IsAgreed true cur until i n s l h v = v
claim-IsAgreed false cur until i n s l h v =
    let got = (claim_rows until i n s.rows).1 in
    let k = changed cur got in
    let e : k ≡ length got = changed-IsCounted cur got h in
    let own = tally-claim_rows until i n i s.rows in
    record {
      balanced =
          note_claim-IsBalanced s.tenants i k s.ledger l (ground (arith, own, v.ready i))
            v.balanced;
      known = All-claim_rows (IsBelow s.tenants) until i n s.rows (λ r l. l) v.known;
      ready = λ j. ground (arith, tally-claim_rows until i n j s.rows, v.ready j);
      claimed = λ j. ground (arith, tally-claim_rows until i n j s.rows, v.claimed j);
      dead = λ j. ground (arith, tally-claim_rows until i n j s.rows, v.dead j);
    }

-- All claimed rows that the ids name are the tenant's own.
abbrev pub IsOwn : (Row → Bool) → ℕ → Store → Type 0
IsOwn q i s = All (λ r. q r ≡ true → r.tenant ≡ i) s.rows

named-IsOfClaimed : (ids : List ℕ) → IsOfClaimed (named ids)
named-IsOfClaimed ids r h = ground arith

is_victim-IsOfClaimed : (id : ℕ) → IsOfClaimed (is_victim id)
is_victim-IsOfClaimed id r h = ground arith

overdue-IsOfClaimed : (now : ℕ) → IsOfClaimed (overdue now)
overdue-IsOfClaimed now r h = ground arith

own_le :
    (q : Row → Bool) (i : ℕ) (s : Store)
    → IsOfClaimed q
    → IsOwn q i s
    → IsAgreed s
    → tally q s.rows ≤ s.ledger.claimed i
own_le q i s c o v =
    ground (arith, tally-own q i i s.rows o, tally-delete_rows q i s.rows c, v.claimed i)

pub ack-IsAgreed :
    (fault : Bool) (i : ℕ) (ids : List ℕ) (s : Store)
    → i < s.tenants
    → IsOwn (named ids) i s
    → IsAgreed s
    → IsAgreed (ack fault i ids s).1
unfolding ack settle
ack-IsAgreed true i ids s l o v = v
ack-IsAgreed false i ids s l o v =
    let q = named ids in
    let c = named-IsOfClaimed ids in
    record {
      balanced =
          note_ack-IsBalanced s.tenants i (tally q s.rows) s.ledger l (own_le q i s c o v)
            v.balanced;
      known = All-delete_rows (IsBelow s.tenants) q s.rows v.known;
      ready = λ j. ground (arith, tally-delete_rows q j s.rows c, v.ready j);
      claimed = λ j.
          ground (arith, tally-delete_rows q j s.rows c, tally-own q i j s.rows o, v.claimed j);
      dead = λ j. ground (arith, tally-delete_rows q j s.rows c, v.dead j);
    }

pub release-IsAgreed :
    (fault : Bool) (i : ℕ) (ids : List ℕ) (s : Store)
    → i < s.tenants
    → IsOwn (named ids) i s
    → IsAgreed s
    → IsAgreed (release fault i ids s).1
unfolding release
release-IsAgreed true i ids s l o v = v
release-IsAgreed false i ids s l o v =
    let q = named ids in
    let c = named-IsOfClaimed ids in
    record {
      balanced =
          note_release-IsBalanced s.tenants i (tally q s.rows) s.ledger l (own_le q i s c o v)
            v.balanced;
      known = All-update_rows (IsBelow s.tenants) q to_ready s.rows (λ r l. l) v.known;
      ready = λ j. ground (arith, tally-to_ready q j s.rows c, tally-own q i j s.rows o, v.ready j);
      claimed =
          λ j. ground (arith, tally-to_ready q j s.rows c, tally-own q i j s.rows o, v.claimed j);
      dead = λ j. ground (arith, tally-to_ready q j s.rows c, v.dead j);
    }

pub dead_letter-IsAgreed :
    (fault : Bool) (i id : ℕ) (s : Store)
    → i < s.tenants
    → IsOwn (is_victim id) i s
    → IsAgreed s
    → IsAgreed (dead_letter fault i id s).1
unfolding dead_letter settle
dead_letter-IsAgreed true i id s l o v = v
dead_letter-IsAgreed false i id s l o v =
    let q = is_victim id in
    let c = is_victim-IsOfClaimed id in
    record {
      balanced =
          note_dead-IsBalanced s.tenants i (tally q s.rows) s.ledger l (own_le q i s c o v)
            v.balanced;
      known = All-update_rows (IsBelow s.tenants) q to_dead s.rows (λ r l. l) v.known;
      ready = λ j. ground (arith, tally-to_dead q j s.rows c, v.ready j);
      claimed =
          λ j. ground (arith, tally-to_dead q j s.rows c, tally-own q i j s.rows o, v.claimed j);
      dead = λ j. ground (arith, tally-to_dead q j s.rows c, tally-own q i j s.rows o, v.dead j);
    }
