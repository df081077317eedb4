-- ===== src/Queue/Workers/Shifts.antt =====
-- Any number of workers at once: each claims a batch and asks the store for what the batch needs,
-- one call at a time, with the calls of the others, inserts and sweeps between them.
use cmek.Base.{
  ℕ, ◌+◌, ◌<◌, ◌≡◌, refl, subst, sym, ◌∙◌, List, [], ◌∷◌, ◌++◌, map, Bool, true, false, All,
}
use cmek.Core.Types.{Config, Envelope}
use cmek.Core.Run.{Env, St}
use cmek.Queue.Rows.{Row, tally}
use cmek.Queue.Tallies.{IsBelow}
use cmek.Queue.Store.{Store, Cursor, Done, claim, census}
use cmek.Queue.Histories.{Act, perform, perform-tenants, empty_store}
use cmek.Queue.Lapses.{IsWithin, perform-IsBelow}
use cmek.Queue.Accounts.{IsAccounted, IsOwnAck, perform-IsAccounted, census-accounted}
use cmek.Queue.Workers.{Desk, id_of}
use cmek.Queue.Workers.Ownership.{
  Assigned, Owned, IsSent, perform-Assigned, Assigned-claim_rows, named-IsOwn, worker-IsSent,
}
use cmek.Queue.Workers.Turn.{taken, turn_acts}

-- What a worker at desk `k` goes on to ask of the store after its Claim.
abbrev pub asked : Config → Desk → St → Env → Done (List Row) → List Act
asked c k st e d = turn_acts c (λ i. k) (λ i. st) e (taken k.idx d)

-- A store of `n` tenants with the calls that the workers still have to make. `owner` says for which
-- tenant an id is given out. A call may come at any time after its batch is claimed.
pub data Shop (owner : ℕ → ℕ) (n : ℕ) (c : Config) : Store → List Act → Type 0 where
  opens : Shop owner n c (empty_store n) []
  inserts :
      (fault : Bool) (now id : ℕ) (env : Envelope) (s : Store) (todo : List Act)
      → Shop owner n c s todo
      → owner id < n
      → Shop owner n c (perform (Act.inserts fault now (owner id) id env) s) todo
  reclaims :
      (fault : Bool) (now : ℕ) (s : Store) (todo : List Act)
      → Shop owner n c s todo
      → Shop owner n c (perform (Act.reclaims fault now) s) todo
  expires :
      (fault : Bool) (before limit : ℕ) (s : Store) (todo : List Act)
      → Shop owner n c s todo
      → Shop owner n c (perform (Act.expires fault before limit) s) todo
  claims :
      (k : Desk) (fault : Bool) (cur : Cursor) (until limit : ℕ) (e : Env) (st : St)
      → (s : Store) (todo : List Act) → Shop owner n c s todo
      → k.idx < n
      → Shop owner n c
          (perform (Act.claims fault cur until k.idx limit) s)
          (todo ++ asked c k st e (claim fault cur until k.idx limit s).0)
  calls :
      (before after : List Act) (a : Act) (s : Store)
      → Shop owner n c s (before ++ a ∷ after)
      → Shop owner n c (perform a s) (before ++ after)

module _ (owner : ℕ → ℕ) (n : ℕ) (c : Config) where
  record IsSound (s : Store) (todo : List Act) : Type 0 where
    pub size : s.tenants ≡ n
    pub known : All (IsBelow s.tenants) s.rows
    pub assigned : Assigned owner s.rows
    pub accounted : (j : ℕ) → IsAccounted j s
    pub sent : All (IsSent owner n) todo

  own_ack : (a : Act) (s : Store) → IsSent owner n a → Assigned owner s.rows → IsOwnAck a s
  own_ack (Act.inserts fault now i id env) s p w = tt
  own_ack (Act.claims fault cur until i k) s p w = tt
  own_ack (Act.acks fault i ids) s p w = named-IsOwn owner i ids s.rows p.1 w
  own_ack (Act.releases fault i ids) s p w = tt
  own_ack (Act.dead_letters fault i id) s p w = tt
  own_ack (Act.reclaims fault now) s p w = tt
  own_ack (Act.expires fault before limit) s p w = tt

  within : (a : Act) → IsSent owner n a → IsWithin n a
  within (Act.inserts fault now i id env) p = p.0
  within (Act.claims fault cur until i k) p = tt
  within (Act.acks fault i ids) p = tt
  within (Act.releases fault i ids) p = tt
  within (Act.dead_letters fault i id) p = tt
  within (Act.reclaims fault now) p = tt
  within (Act.expires fault before limit) p = tt

  perform-IsSound :
      (a : Act) (s : Store) (todo todo' : List Act)
      → IsSound s todo
      → IsSent owner n a
      → All (IsSent owner n) todo'
      → IsSound (perform a s) todo'
  perform-IsSound a s todo todo' v p q = record {
    size = perform-tenants a s ∙ v.size;
    known =
        subst (λ (m : ℕ). All (IsBelow m) (perform a s).rows) (sym (perform-tenants a s))
          (perform-IsBelow s.tenants a s (subst (λ (m : ℕ). IsWithin m a) (sym v.size) (within a p))
            v.known);
    assigned = perform-Assigned owner n a s p v.assigned;
    accounted = λ j. perform-IsAccounted j a s (own_ack a s p v.assigned) v.known (v.accounted j);
    sent = q;
  }

  All-append :
      (xs ys : List Act)
      → All (IsSent owner n) xs
      → All (IsSent owner n) ys
      → All (IsSent owner n) (xs ++ ys)
  All-append [] ys p q = q
  All-append (x ∷ xs) ys p q = (p.0, All-append xs ys p.1 q)

  All-middle :
      (xs ys : List Act) (a : Act)
      → All (IsSent owner n) (xs ++ a ∷ ys)
      → IsSent owner n a × All (IsSent owner n) (xs ++ ys)
  All-middle [] ys a p = p
  All-middle (x ∷ xs) ys a p = let q = All-middle xs ys a p.1 in (q.0, (p.0, q.1))

  abbrev IsOwnBatch : ℕ → Done (List Row) → Type 0
  IsOwnBatch i Done.failed = Unit {0}
  IsOwnBatch i (Done.done rows) = Owned owner i (map id_of rows)

  claim-IsOwnBatch :
      (fault : Bool) (cur : Cursor) (until i limit : ℕ) (s : Store)
      → Assigned owner s.rows
      → IsOwnBatch i (claim fault cur until i limit s).0
  unfolding claim
  claim-IsOwnBatch true cur until i limit s w = tt
  claim-IsOwnBatch false Cursor.drained until i limit s w =
      (Assigned-claim_rows owner until i limit s.rows w).1
  claim-IsOwnBatch false (Cursor.stopped m) until i limit s w = tt
  claim-IsOwnBatch false (Cursor.lost m) until i limit s w = tt

  asked-IsSent :
      (k : Desk) (st : St) (e : Env) (d : Done (List Row))
      → k.idx < n
      → IsOwnBatch k.idx d
      → All (IsSent owner n) (asked c k st e d)
  unfolding turn_acts
  asked-IsSent k st e Done.failed l o = tt
  asked-IsSent k st e (Done.done []) l o = tt
  asked-IsSent k st e (Done.done (r ∷ rs)) l o = worker-IsSent owner n c k (r ∷ rs) e st l o

  Shop-IsSound : (s : Store) (todo : List Act) → Shop owner n c s todo → IsSound s todo
  Shop-IsSound _ _ Shop.opens = record {
    size = refl;
    known = tt;
    assigned = tt;
    accounted = λ j. unfold tally in refl;
    sent = tt;
  }
  Shop-IsSound _ _ (Shop.inserts fault now id env s todo h l) =
      let v = Shop-IsSound s todo h in
      perform-IsSound (Act.inserts fault now (owner id) id env) s todo todo v (l, refl) v.sent
  Shop-IsSound _ _ (Shop.reclaims fault now s todo h) =
      let v = Shop-IsSound s todo h in
      perform-IsSound (Act.reclaims fault now) s todo todo v tt v.sent
  Shop-IsSound _ _ (Shop.expires fault before limit s todo h) =
      let v = Shop-IsSound s todo h in
      perform-IsSound (Act.expires fault before limit) s todo todo v tt v.sent
  Shop-IsSound _ _ (Shop.claims k fault cur until limit e st s todo h l) =
      let v = Shop-IsSound s todo h in
      let d = (claim fault cur until k.idx limit s).0 in
      perform-IsSound (Act.claims fault cur until k.idx limit) s todo (todo ++ asked c k st e d) v l
        (All-append todo (asked c k st e d) v.sent
          (asked-IsSent k st e d l (claim-IsOwnBatch fault cur until k.idx limit s v.assigned)))
  Shop-IsSound _ _ (Shop.calls before after a s h) =
      let v = Shop-IsSound s (before ++ a ∷ after) h in
      let q = All-middle before after a v.sent in
      perform-IsSound a s (before ++ a ∷ after) (before ++ after) v q.0 q.1

-- However many workers claim batches and make the calls that these need, in any interleaving with
-- each other, with inserts and with sweeps, and whatever fails, the count after a broken Claim
-- included, every accepted message of a tenant is delivered, ready, claimed, expired or dead, if no
-- id is given out for two tenants.
pub workers_conserve :
    (owner : ℕ → ℕ) (n : ℕ) (c : Config) (s : Store) (todo : List Act) (j : ℕ)
    → Shop owner n c s todo
    → let k = census s in
      k.accepted j ≡ k.delivered j + k.ready j + k.claimed j + k.expired j + k.dead j
workers_conserve owner n c s todo j h =
    census-accounted j s ((Shop-IsSound owner n c s todo h).accounted j)
