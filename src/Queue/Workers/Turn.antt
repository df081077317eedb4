-- ===== src/Queue/Workers/Turn.antt =====
-- One turn of `loop` of internal/queue/workers.go: the ring gives out a tenant, a batch of it is
-- claimed and worked; with no tenant, a failed Claim or an empty batch the worker waits. The answers
-- of the core's Hot and of the gate's share are arguments, as the scheduler has them.
use cmek.Base.{ℕ, ◌<◌, ◌≡◌, refl, ap, sym, ◌∙◌, List, [], ◌∷◌, map, Option, none, some, Bool}
use cmek.Core.Types.{Config}
use cmek.Core.Run.{Env, St}
use cmek.Queue.Rows.{Row}
use cmek.Queue.Ledger.{backlog_of}
use cmek.Queue.Store.{Store, Cursor, Done, claim}
use cmek.Queue.Histories.{Act}
use cmek.Queue.Scheduler.{View, Ring, next}
use cmek.Queue.Fairness.{MayRun, IsRing, next-MayRun}
use cmek.Queue.Workers.{Desk, work, finish, id_of}
use cmek.Queue.Workers.Disposal.{occurs, settled, work_settles}

-- What the scheduler reads of the store: one snapshot for all candidates, where the source reads the
-- counters again for each.
unfoldable pub view_of : (ℕ → Bool) → Store → View
unfolding backlog_of
view_of hot s = record { ready = s.ledger.ready; backlog = backlog_of s.ledger; is_hot = hot }

-- A turn: `wait`, or a batch of a tenant.
pub data LoopTurn : Type 0 where
  waits : LoopTurn
  works : ℕ → List Row → LoopTurn

abbrev pub taken : ℕ → Done (List Row) → LoopTurn
taken i Done.failed = LoopTurn.waits
taken i (Done.done []) = LoopTurn.waits
taken i (Done.done (r ∷ rs)) = LoopTurn.works i (r ∷ rs)

-- How the store answers the turn's Claim.
pub record Ask : Type 0 where
  pub fault : Bool
  pub cur : Cursor
  pub until : ℕ
  pub batch : ℕ

unfoldable pub picked : Ask → Store → Option ℕ × Ring → LoopTurn × Store × Ring
unfolding claim
picked a s (none, r) = (LoopTurn.waits, s, r)
picked a s (some i, r) =
    let got = claim a.fault a.cur a.until i a.batch s in (taken i got.0, got.1, r)

unfoldable pub pick : (ℕ → Bool) → Option ℕ → Ask → Store → Ring → LoopTurn × Store × Ring
unfolding view_of next picked
pick hot fs a s r = picked a s (next (view_of hot s) fs r)

-- The store's calls of the rest of the turn.
unfoldable pub turn_acts : Config → (ℕ → Desk) → (ℕ → St) → Env → LoopTurn → List Act
unfolding work finish
turn_acts c desk st e LoopTurn.waits = []
turn_acts c desk st e (LoopTurn.works i rs) = finish (desk i) (work c (desk i) rs e (st i)).0

abbrev pub batch_of : LoopTurn → List Row
batch_of LoopTurn.waits = []
batch_of (LoopTurn.works i rs) = rs

-- However a turn goes, its calls settle each message exactly as often as its batch holds it.
pub turn_settles :
    (c : Config) (desk : ℕ → Desk) (st : ℕ → St) (e : Env) (t : LoopTurn) (x : ℕ)
    → settled x (turn_acts c desk st e t) ≡ occurs x (map id_of (batch_of t))
unfolding turn_acts
turn_settles c desk st e LoopTurn.waits x = refl
turn_settles c desk st e (LoopTurn.works i rs) x = work_settles c (desk i) rs e (st i) x

abbrev tenant_of : ℕ → LoopTurn → ℕ
tenant_of z LoopTurn.waits = z
tenant_of z (LoopTurn.works i rs) = i

taken-works :
    (i j : ℕ) (d : Done (List Row)) (rs : List Row)
    → taken j d ≡ LoopTurn.works i rs
    → (j ≡ i) × (d ≡ Done.done rs)
taken-works i j Done.failed rs e = absurd cc
taken-works i j (Done.done []) rs e = absurd cc
taken-works i j (Done.done (r ∷ rs')) rs e =
    (ap (tenant_of j) e, ap (λ t. Done.done (batch_of t)) e)

picked-works :
    (a : Ask) (s : Store) (o : Option ℕ) (r : Ring) (i : ℕ) (rs : List Row)
    → (picked a s (o, r)).0 ≡ LoopTurn.works i rs
    → (o ≡ some i)
      × ((claim a.fault a.cur a.until i a.batch s).0 ≡ Done.done rs)
      × ((picked a s (o, r)).2 ≡ r)
unfolding picked
picked-works a s none r i rs e = absurd cc
picked-works a s (some j) r i rs e =
    let got = taken-works i j (claim a.fault a.cur a.until j a.batch s).0 rs e in
    let d : ℕ → Done (List Row) = λ k. (claim a.fault a.cur a.until k a.batch s).0 in
    (ap some got.0, ap d (sym got.0) ∙ got.1, refl)

-- A worker's turn works only a batch that Claim has given of a tenant which exists, has a ready
-- message in the ledger and is admitted by the core; and both cursors stay on the ring.
pub pick-MayRun :
    (hot : ℕ → Bool) (fs : Option ℕ) (a : Ask) (s : Store) (r : Ring) (i : ℕ) (rs : List Row)
    → IsRing r
    → (pick hot fs a s r).0 ≡ LoopTurn.works i rs
    → (i < r.tenants)
      × MayRun (view_of hot s) i
      × IsRing (pick hot fs a s r).2
      × ((claim a.fault a.cur a.until i a.batch s).0 ≡ Done.done rs)
unfolding pick
pick-MayRun hot fs a s r i rs w e =
    let n = next (view_of hot s) fs r in
    let p = picked-works a s n.0 n.1 i rs e in
    let m = next-MayRun (view_of hot s) fs r i w p.0 in (m.0, m.1, rw p.2 m.2, p.1)
