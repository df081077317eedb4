-- ===== src/Queue/Rows.antt =====
-- internal/queue/store.go: the rows of the `messages` table and the prepared statements over them.
-- The tenants' ids are distinct, so the column `tenant_id` is the index of the id; rows stand in
-- the order of their primary key. SQLite's own work is its documented meaning of each statement.
use cmek.Base.{
  ℕ, zero, suc, ◌+◌, Bytes, List, [], ◌∷◌, Option, none, some, Bool, true, false, ltb, ◌==◌, ◌&&◌,
  if◌then◌else◌,
}

pub data RowState : Type 0 where
  ready claimed dead : RowState

pub record Row : Type 0 where
  pub id : ℕ
  pub tenant : ℕ
  pub dek_id : Bytes
  pub ciphertext : Bytes
  pub state : RowState
  pub attempts : ℕ
  pub enqueued_at : ℕ
  pub claimed_until : Option ℕ

abbrev pub is_ready : RowState → Bool
is_ready RowState.ready = true
is_ready _ = false

abbrev pub is_claimed : RowState → Bool
is_claimed RowState.claimed = true
is_claimed _ = false

abbrev pub is_dead : RowState → Bool
is_dead RowState.dead = true
is_dead _ = false

-- `SELECT COUNT(*) … WHERE p`.
unfoldable pub tally : (Row → Bool) → List Row → ℕ
tally p [] = 0
tally p (r ∷ rs) = if p r then suc (tally p rs) else tally p rs

-- The three GROUP BY counts of a tenant.
abbrev pub ready_of : ℕ → Row → Bool
ready_of i r = r.tenant == i && is_ready r.state

abbrev pub claimed_of : ℕ → Row → Bool
claimed_of i r = r.tenant == i && is_claimed r.state

abbrev pub dead_of : ℕ → Row → Bool
dead_of i r = r.tenant == i && is_dead r.state

-- INSERT: an id that is there already is refused by the primary key.
unfoldable pub insert_row : Row → List Row → Option (List Row)
insert_row x [] = some (x ∷ [])
insert_row x (r ∷ rs) =
    let rest = insert_row x rs in
    if x.id == r.id
    then none
    else if ltb x.id r.id
    then some (x ∷ r ∷ rs)
    else elim rest [ none ↦ none | some rs' ↦ some (r ∷ rs') ]

abbrev pub to_ready : Row → Row
to_ready r = record r { state = RowState.ready; claimed_until = none }

abbrev pub to_claimed : ℕ → Row → Row
to_claimed until r = record r { state = RowState.claimed; claimed_until = some until }

-- claim: the first `n` ready rows of the tenant. The rows that RETURNING gives come second.
unfoldable pub claim_rows : ℕ → ℕ → ℕ → List Row → List Row × List Row
claim_rows until i n [] = ([], [])
claim_rows until i zero (r ∷ rs) = (r ∷ rs, [])
claim_rows until i (suc n) (r ∷ rs) =
    let taken = claim_rows until i n rs in
    let passed = claim_rows until i (suc n) rs in
    if ready_of i r
    then (to_claimed until r ∷ taken.0, to_claimed until r ∷ taken.1)
    else (r ∷ passed.0, passed.1)

unfoldable pub has_id : ℕ → List ℕ → Bool
has_id x [] = false
has_id x (y ∷ ys) = if x == y then true else has_id x ys

-- The WHERE of ack and release.
abbrev pub named : List ℕ → Row → Bool
named ids r = is_claimed r.state && has_id r.id ids

-- The WHERE of dead.
abbrev pub is_victim : ℕ → Row → Bool
is_victim id r = r.id == id && is_claimed r.state

-- `claimed_until < ?1`, which is not true of NULL.
abbrev pub lapsed_before : ℕ → Option ℕ → Bool
lapsed_before now none = false
lapsed_before now (some u) = ltb u now

-- The WHERE of reclaim.
abbrev pub overdue : ℕ → Row → Bool
overdue now r = is_claimed r.state && lapsed_before now r.claimed_until

-- DELETE … WHERE p.
unfoldable pub delete_rows : (Row → Bool) → List Row → List Row
delete_rows p [] = []
delete_rows p (r ∷ rs) = if p r then delete_rows p rs else r ∷ delete_rows p rs

-- UPDATE … SET f WHERE p.
unfoldable pub update_rows : (Row → Bool) → (Row → Row) → List Row → List Row
update_rows p f [] = []
update_rows p f (r ∷ rs) = (if p r then f r else r) ∷ update_rows p f rs

abbrev pub to_dead : Row → Row
to_dead r = record r { state = RowState.dead; claimed_until = none; attempts = r.attempts + 1 }

-- The WHERE of the two expire statements, before their LIMIT.
abbrev pub stale : ℕ → Row → Bool
stale before r = is_ready r.state && ltb r.enqueued_at before

-- The first `n` rows with `p`, and the rest.
unfoldable pub first_rows : (Row → Bool) → ℕ → List Row → List Row
first_rows p n [] = []
first_rows p zero (r ∷ rs) = []
first_rows p (suc n) (r ∷ rs) =
    let taken = first_rows p n rs in
    let passed = first_rows p (suc n) rs in if p r then r ∷ taken else passed

unfoldable pub drop_rows : (Row → Bool) → ℕ → List Row → List Row
drop_rows p n [] = []
drop_rows p zero (r ∷ rs) = r ∷ rs
drop_rows p (suc n) (r ∷ rs) =
    let taken = drop_rows p n rs in
    let passed = drop_rows p (suc n) rs in if p r then taken else r ∷ passed
