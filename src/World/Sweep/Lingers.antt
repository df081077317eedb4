-- ===== src/World/Sweep/Lingers.antt =====
-- No claim outlives its time by long.
use cmek.Base.{
  ℕ, ◌-◌, ◌<◌, ◌≡◌, refl, sym, subst, arith, List, All, Bool, false, ltb, leb, ◌&&◌, Bool-cases,
  inl, inr, map,
}
use cmek.Core.Types.{Config, Tenant}
use cmek.Core.Sweep.{tick_all}
use cmek.Queue.Histories.{Act, perform, perform-tenants, empty_store}
use cmek.Queue.Tallies.{IsBelow}
use cmek.Queue.Store.{Store}
use cmek.World.Params.{Params}
use cmek.World.Sweep.{Sweeper, ms, reclaim_due, expire_due, sweep_turn}
use cmek.Queue.Lapses.{
  InTime, IsTimely, IsWithin, reclaim-cleared, perform-InTime, perform-IsBelow, earlier-InTime,
}

-- The sweeper from an empty store on: operations that insert only for the store's tenants and claim
-- for a time after the last Reclaim, and turns of the loop whose Reclaim the database does not fail.
pub data Swept (c : Config) (p : Params) : Sweeper → Type 0 where
  begins :
      (now n : ℕ) (ts : List Tenant)
      → Swept c p
          (record { last_reclaim = now; last_expire = now; store = empty_store n; tenants = ts })
  acts :
      (a : Act) (s : Sweeper)
      → Swept c p s
      → IsWithin s.store.tenants a
      → IsTimely (ms s.last_reclaim) a
      → Swept c p (record s { store = perform a s.store })
  turns :
      (now : ℕ) (fault : Bool) (s : Sweeper)
      → Swept c p s
      → Swept c p (sweep_turn c p now false fault s)

-- Every row is of a tenant of the store, and no claim had lapsed at the last Reclaim.
record IsSteady (s : Sweeper) : Type 0 where
  pub known : All (IsBelow s.store.tenants) s.store.rows
  pub fine : InTime (ms s.last_reclaim) s.store.rows

-- An operation of the store, with the last Reclaim moved only to an instant without overdue claims.
perform-IsSteady :
    (a : Act) (s u : Sweeper)
    → u.store ≡ perform a s.store
    → IsWithin s.store.tenants a
    → All (IsBelow s.store.tenants) s.store.rows
    → InTime (ms u.last_reclaim) (perform a s.store).rows
    → IsSteady u
perform-IsSteady a s u e w k f =
    let below = perform-IsBelow s.store.tenants a s.store w k in
    record {
      known =
          subst (λ (t : Store). All (IsBelow t.tenants) t.rows) (sym e)
            (subst (λ (n : ℕ). All (IsBelow n) (perform a s.store).rows)
              (sym (perform-tenants a s.store)) below);
      fine = subst (λ (t : Store). InTime (ms u.last_reclaim) t.rows) (sym e) f;
    }

reclaim_due-IsSteady :
    (p : Params) (now : ℕ) (s : Sweeper) → IsSteady s → IsSteady (reclaim_due p now false s)
unfolding reclaim_due perform
reclaim_due-IsSteady p now s v = elim (Bool-cases (leb p.reclaim_interval (now - s.last_reclaim))) [
  | inl e ↦ rw e (
      perform-IsSteady (Act.reclaims false (ms now)) s _ refl tt v.known
        (reclaim-cleared (ms now) s.store v.known))
  | inr e ↦ rw e v
]

expire_due-IsSteady :
    (p : Params) (now : ℕ) (fault : Bool) (s : Sweeper)
    → IsSteady s
    → IsSteady (expire_due p now fault s)
unfolding expire_due perform
expire_due-IsSteady p now fault s v =
    let a : Act = Act.expires fault (ms (now - p.retention)) p.expire_limit in
    elim (Bool-cases (ltb 0 p.retention && leb p.expire_interval (now - s.last_expire))) [
      | inl e ↦ rw e (
          perform-IsSteady a s _ refl tt v.known
            (perform-InTime (ms s.last_reclaim) a s.store tt v.fine))
      | inr e ↦ rw e v
    ]

swept-IsSteady : (c : Config) (p : Params) (s : Sweeper) → Swept c p s → IsSteady s
unfolding sweep_turn
swept-IsSteady c p _ (Swept.begins now n ts) = record { known = tt; fine = tt }
swept-IsSteady c p _ (Swept.acts a s r w l) =
    let v = swept-IsSteady c p s r in
    perform-IsSteady a s (record s { store = perform a s.store }) refl w v.known
      (perform-InTime (ms s.last_reclaim) a s.store l v.fine)
swept-IsSteady c p _ (Swept.turns now fault s r) =
    let v = swept-IsSteady c p s r in
    let t : Sweeper = record s { tenants = map (λ j. j.1) (tick_all c now s.tenants) } in
    expire_due-IsSteady p now fault (reclaim_due p now false t)
      (reclaim_due-IsSteady p now t (record { known = v.known; fine = v.fine }))

expire_due-last :
    (p : Params) (now : ℕ) (fault : Bool) (s : Sweeper)
    → (expire_due p now fault s).last_reclaim ≡ s.last_reclaim
unfolding expire_due
expire_due-last p now fault s =
    elim (Bool-cases (ltb 0 p.retention && leb p.expire_interval (now - s.last_expire))) [
      | inl e ↦ rw e refl
      | inr e ↦ rw e refl
    ]

reclaim_due-last :
    (p : Params) (now : ℕ) (s : Sweeper)
    → 0 < p.reclaim_interval
    → now - (reclaim_due p now false s).last_reclaim < p.reclaim_interval
unfolding reclaim_due
reclaim_due-last p now s l = elim (Bool-cases (leb p.reclaim_interval (now - s.last_reclaim))) [
  | inl e ↦ rw e (omega (arith, l))
  | inr e ↦ rw e (ground (arith, e))
]

turn-last :
    (c : Config) (p : Params) (now : ℕ) (fault : Bool) (s : Sweeper)
    → 0 < p.reclaim_interval
    → now - (sweep_turn c p now false fault s).last_reclaim < p.reclaim_interval
unfolding sweep_turn
turn-last c p now fault s l =
    let t : Sweeper = record s { tenants = map (λ j. j.1) (tick_all c now s.tenants) } in
    let e = expire_due-last p now fault (reclaim_due p now false t) in
    omega (arith, reclaim_due-last p now t l, e)

-- No claim lingers: after every turn of the sweep loop, no message is claimed for a time that ended
-- more than ReclaimInterval before the turn, whatever the store has done from empty on and whatever
-- failed in it, if inserts are for tenants of the store, claims are for a time after the last
-- Reclaim, and the database fails no Reclaim of the loop.
pub no_claim_lingers :
    (c : Config) (p : Params) (now : ℕ) (fault : Bool) (s : Sweeper)
    → 0 < p.reclaim_interval
    → Swept c p s
    → InTime (ms (now - p.reclaim_interval)) (sweep_turn c p now false fault s).store.rows
no_claim_lingers c p now fault s l r =
    let s' = sweep_turn c p now false fault s in
    earlier-InTime (ms (now - p.reclaim_interval)) (ms s'.last_reclaim) s'.store.rows
      (omega (arith, turn-last c p now fault s l))
      (swept-IsSteady c p s' (Swept.turns now fault s r)).fine
