-- ===== src/Queue/Store.antt =====
-- internal/queue/store.go: the store's operations. Each is one critical section under the store's
-- mutex: the statement, then the ledger. `fault` is an error of the database, which a failing
-- statement returns with no row changed.
use cmek.Base.{
  ℕ, ◌+◌, Map, List, Option, none, some, Bool, true, false, ◌==◌, ◌&&◌, length, take, if◌then◌else◌,
  lookup, insert, ◌||◌, is_some,
}
use cmek.Core.Types.{Envelope, WrappedDek}
use cmek.Queue.Ledger.{
  Ledger, backlog_of, note_insert, note_claim, note_ack, note_release, note_dead, note_expired,
  note_reclaimed,
}
use cmek.Queue.Balance.{sum_below}
use cmek.Queue.Rows.{
  Row, RowState, tally, ready_of, claimed_of, dead_of, insert_row, to_ready, to_dead, claim_rows,
  named, is_victim, overdue, delete_rows, update_rows, stale, first_rows, drop_rows,
}

-- The store: its rows, the `deks` table by id, the ledger and the last id given out.
pub record Store : Type 0 where
  pub tenants : ℕ
  pub rows : List Row
  pub deks : Map WrappedDek
  pub ledger : Ledger
  pub last_id : ℕ

-- What an operation tells its caller.
pub data Done {ℓ} (A : Type ℓ) : Type ℓ where
  done : A → Done A
  failed : Done A

unfoldable pub next_id : Store → ℕ × Store
next_id s = (s.last_id + 1, record s { last_id = s.last_id + 1 })

-- `PutDEK`: the id is the primary key.
unfoldable pub put_dek : Bool → WrappedDek → Store → Done (Unit {0}) × Store
unfolding lookup insert
put_dek fault d s =
    if fault || is_some (lookup d.id s.deks)
    then (Done.failed, s)
    else (Done.done tt, record s { deks = insert d.id d s.deks })

unfoldable pub new_row : ℕ → ℕ → ℕ → Envelope → Row
new_row now i id env = record {
  id = id;
  tenant = i;
  dek_id = env.dek_id;
  ciphertext = env.ciphertext;
  state = RowState.ready;
  attempts = 0;
  enqueued_at = now;
  claimed_until = none;
}

unfoldable pub inserted : ℕ → Option (List Row) → Store → Done (Unit {0}) × Store
unfolding note_insert
inserted i none s = (Done.failed, s)
inserted i (some rows) s = (Done.done tt, record s { rows = rows; ledger = note_insert i s.ledger })

-- `Insert` at the clock's reading `now`, in milliseconds.
unfoldable pub insert_message : Bool → ℕ → ℕ → ℕ → Envelope → Store → Done (Unit {0}) × Store
unfolding inserted insert_row new_row
insert_message true now i id env s = (Done.failed, s)
insert_message false now i id env s = inserted i (insert_row (new_row now i id env) s.rows) s

-- How the RETURNING cursor ended: drained; stopped after some rows, the count then read from
-- `changes()`; or stopped, and `changes()` failed as well.
pub data Cursor : Type 0 where
  drained : Cursor
  stopped : ℕ → Cursor
  lost : ℕ → Cursor

-- The count by which the ledger is moved.
unfoldable pub changed : Cursor → List Row → ℕ
changed Cursor.drained got = length got
changed (Cursor.stopped n) got = length got
changed (Cursor.lost n) got = length (take n got)

abbrev pub answer : Cursor → List Row → Done (List Row)
answer Cursor.drained got = Done.done got
answer _ got = Done.failed

-- `Claim`.
unfoldable pub claim : Bool → Cursor → ℕ → ℕ → ℕ → Store → Done (List Row) × Store
unfolding claim_rows changed note_claim
claim true cur until i n s = (Done.failed, s)
claim false cur until i n s =
    let (rows', got) = claim_rows until i n s.rows in
    (answer cur got, record s { rows = rows'; ledger = note_claim i (changed cur got) s.ledger })

-- `Ack`: the count of the rows that the statement names moves the ledger.
unfoldable pub ack : Bool → ℕ → List ℕ → Store → Done ℕ × Store
unfolding tally delete_rows note_ack
ack true i ids s = (Done.failed, s)
ack false i ids s =
    let k = tally (named ids) s.rows in
    (
      Done.done k,
      record s { rows = delete_rows (named ids) s.rows; ledger = note_ack i k s.ledger },
    )

unfoldable pub release : Bool → ℕ → List ℕ → Store → Done ℕ × Store
unfolding tally update_rows note_release
release true i ids s = (Done.failed, s)
release false i ids s =
    let k = tally (named ids) s.rows in
    (
      Done.done k,
      record s {
        rows = update_rows (named ids) to_ready s.rows;
        ledger = note_release i k s.ledger;
      },
    )

unfoldable pub dead_letter : Bool → ℕ → ℕ → Store → Done (Unit {0}) × Store
unfolding tally update_rows note_dead
dead_letter true i id s = (Done.failed, s)
dead_letter false i id s =
    let k = tally (is_victim id) s.rows in
    (
      Done.done tt,
      record s {
        rows = update_rows (is_victim id) to_dead s.rows;
        ledger = note_dead i k s.ledger;
      },
    )

-- The counts per tenant that `Reclaim` reads first.
abbrev pub overdue_counts : ℕ → List Row → ℕ → ℕ
overdue_counts now rows i = tally (λ r. r.tenant == i && overdue now r) rows

-- `Reclaim`: count, update, compare, and only then the ledger.
unfoldable pub reclaim : Bool → ℕ → Store → Done ℕ × Store
unfolding tally update_rows note_reclaimed
reclaim true now s = (Done.failed, s)
reclaim false now s =
    let total = sum_below s.tenants (overdue_counts now s.rows) in
    let rows' = update_rows (overdue now) to_ready s.rows in
    if total == 0
    then (Done.done 0, s)
    else if tally (overdue now) s.rows == total
    then (
      Done.done total,
      record s {
        rows = rows';
        ledger = note_reclaimed s.tenants (overdue_counts now s.rows) s.ledger;
      },
    )
    else (Done.failed, record s { rows = rows' })

abbrev pub stale_counts : ℕ → ℕ → List Row → ℕ → ℕ
stale_counts before limit rows i = tally (λ r. r.tenant == i) (first_rows (stale before) limit rows)

-- `Expire`.
unfoldable pub expire : Bool → ℕ → ℕ → Store → Done ℕ × Store
unfolding tally first_rows drop_rows note_expired
expire true before limit s = (Done.failed, s)
expire false before limit s =
    let total = sum_below s.tenants (stale_counts before limit s.rows) in
    let rows' = drop_rows (stale before) limit s.rows in
    if total == 0
    then (Done.done 0, s)
    else if length (first_rows (stale before) limit s.rows) == total
    then (
      Done.done total,
      record s {
        rows = rows';
        ledger = note_expired s.tenants (stale_counts before limit s.rows) s.ledger;
      },
    )
    else (Done.failed, record s { rows = rows' })

-- `Census`: the rows' own counts beside the ledger's counters, in one section.
pub record Census : Type 0 where
  pub accepted : ℕ → ℕ
  pub delivered : ℕ → ℕ
  pub expired : ℕ → ℕ
  pub ready : ℕ → ℕ
  pub claimed : ℕ → ℕ
  pub dead : ℕ → ℕ
  pub total : ℕ
  pub backlogged : ℕ

unfoldable pub census : Store → Census
unfolding tally
census s = record {
  accepted = s.ledger.accepted;
  delivered = s.ledger.delivered;
  expired = s.ledger.expired;
  ready = λ i. tally (ready_of i) s.rows;
  claimed = λ i. tally (claimed_of i) s.rows;
  dead = λ i. tally (dead_of i) s.rows;
  total = s.ledger.total;
  backlogged = s.ledger.backlogged;
}

unfoldable pub backlog : Store → ℕ → ℕ
unfolding backlog_of
backlog s i = backlog_of s.ledger i
