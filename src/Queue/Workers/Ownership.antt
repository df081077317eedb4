-- ===== src/Queue/Workers/Ownership.antt =====
-- What a worker asks of the store names only messages of its own tenant.
use cmek.Base.{
  ℕ, zero, suc, ◌<◌, ◌≡◌, refl, arith, sym, List, [], ◌∷◌, ◌++◌, map, some, Bool, true, false, All,
  Option-cases, inl, inr,
}
use cmek.Core.Types.{Config, Envelope}
use cmek.Core.Run.{Env, St}
use cmek.Queue.Rows.{
  Row, insert_row, claim_rows, delete_rows, update_rows, drop_rows, to_ready, to_dead, named,
  is_victim, overdue, stale, has_id,
}
use cmek.Queue.Store.{Store, new_row, inserted, insert_message}
use cmek.Queue.Histories.{Act, perform}
use cmek.Queue.Workers.{Desk, Work, id_of, give_back, work, finish}
use cmek.Queue.Workers.Disposal.{Carries, work-Carries}

-- `NextID` gives no id twice, so the ids of all time have one tenant each: `owner`.
module _ (owner : ℕ → ℕ) where
  -- Every row stands under the tenant that its id was given out for.
  abbrev pub Assigned : List Row → Type 0
  Assigned rs = All (λ r. r.tenant ≡ owner r.id) rs

  abbrev pub Owned : ℕ → List ℕ → Type 0
  Owned i ids = All (λ id. owner id ≡ i) ids

  -- What may be asked of the store at any time, whatever others have asked of it before.
  abbrev pub IsSent : ℕ → Act → Type 0
  IsSent n (Act.inserts fault now i id env) = (i < n) × (owner id ≡ i)
  IsSent n (Act.claims fault cur until i k) = i < n
  IsSent n (Act.acks fault i ids) = (i < n) × Owned i ids
  IsSent n (Act.releases fault i ids) = (i < n) × Owned i ids
  IsSent n (Act.dead_letters fault i id) = (i < n) × (owner id ≡ i)
  IsSent n _ = Unit {0}

  Assigned-insert_row :
      (x : Row) (rs rs' : List Row)
      → insert_row x rs ≡ some rs'
      → x.tenant ≡ owner x.id
      → Assigned rs
      → Assigned rs'
  unfolding insert_row
  Assigned-insert_row x [] rs' e o a = ground arith
  Assigned-insert_row x (r ∷ rs) rs' e o a = elim (Option-cases (insert_row x rs)) [
    | inl h ↦ ground arith
    | inr (us, h) ↦ ground (arith, Assigned-insert_row x rs us h o a.1)
  ]

  -- The rows that a claim returns are the tenant's own, and they are assigned.
  pub Assigned-claim_rows :
      (until i n : ℕ) (rs : List Row)
      → Assigned rs
      → Assigned (claim_rows until i n rs).0 × Owned i (map id_of (claim_rows until i n rs).1)
  unfolding claim_rows
  Assigned-claim_rows until i n [] a = (tt, tt)
  Assigned-claim_rows until i zero (r ∷ rs) a = (a, tt)
  Assigned-claim_rows until i (suc n) (r ∷ rs) a =
      ground
        (arith, Assigned-claim_rows until i n rs a.1, Assigned-claim_rows until i (suc n) rs a.1)

  Assigned-delete_rows :
      (q : Row → Bool) (rs : List Row) → Assigned rs → Assigned (delete_rows q rs)
  unfolding delete_rows
  Assigned-delete_rows q [] a = a
  Assigned-delete_rows q (r ∷ rs) a = ground (arith, Assigned-delete_rows q rs a.1)

  Assigned-update_rows :
      (q : Row → Bool) (f : Row → Row) (rs : List Row)
      → ((r : Row) → ((f r).tenant ≡ r.tenant) × ((f r).id ≡ r.id))
      → Assigned rs
      → Assigned (update_rows q f rs)
  unfolding update_rows
  Assigned-update_rows q f [] h a = a
  Assigned-update_rows q f (r ∷ rs) h a = ground (arith, Assigned-update_rows q f rs h a.1, h r)

  Assigned-drop_rows :
      (q : Row → Bool) (n : ℕ) (rs : List Row) → Assigned rs → Assigned (drop_rows q n rs)
  unfolding drop_rows
  Assigned-drop_rows q n [] a = a
  Assigned-drop_rows q zero (r ∷ rs) a = a
  Assigned-drop_rows q (suc n) (r ∷ rs) a =
      ground (arith, Assigned-drop_rows q n rs a.1, Assigned-drop_rows q (suc n) rs a.1)

  Assigned-insert_message :
      (fault : Bool) (now i id : ℕ) (env : Envelope) (s : Store)
      → owner id ≡ i
      → Assigned s.rows
      → Assigned (insert_message fault now i id env s).1.rows
  unfolding insert_message inserted new_row
  Assigned-insert_message true now i id env s o a = a
  Assigned-insert_message false now i id env s o a =
      elim (Option-cases (insert_row (new_row now i id env) s.rows)) [
        | inl h ↦ rw (h, inserted) a
        | inr (rows, h) ↦
            rw (h, inserted) (Assigned-insert_row (new_row now i id env) s.rows rows h (sym o) a)
      ]

  pub perform-Assigned :
      (n : ℕ) (x : Act) (s : Store) → IsSent n x → Assigned s.rows → Assigned (perform x s).rows
  unfolding perform
  perform-Assigned n (Act.inserts fault now i id env) s p a =
      Assigned-insert_message fault now i id env s p.1 a
  perform-Assigned n (Act.claims true cur until i k) s p a = a
  perform-Assigned n (Act.claims false cur until i k) s p a =
      (Assigned-claim_rows until i k s.rows a).0
  perform-Assigned n (Act.acks true i ids) s p a = a
  perform-Assigned n (Act.acks false i ids) s p a = Assigned-delete_rows (named ids) s.rows a
  perform-Assigned n (Act.releases true i ids) s p a = a
  perform-Assigned n (Act.releases false i ids) s p a =
      Assigned-update_rows (named ids) to_ready s.rows (λ r. (refl, refl)) a
  perform-Assigned n (Act.dead_letters true i id) s p a = a
  perform-Assigned n (Act.dead_letters false i id) s p a =
      Assigned-update_rows (is_victim id) to_dead s.rows (λ r. (refl, refl)) a
  perform-Assigned n (Act.reclaims true now) s p a = a
  perform-Assigned n (Act.reclaims false now) s p a =
      ground (arith, Assigned-update_rows (overdue now) to_ready s.rows (λ r. (refl, refl)) a)
  perform-Assigned n (Act.expires true before limit) s p a = a
  perform-Assigned n (Act.expires false before limit) s p a =
      ground (arith, Assigned-drop_rows (stale before) limit s.rows a)

  Owned-has_id : (i x : ℕ) (ids : List ℕ) → Owned i ids → has_id x ids ≡ true → owner x ≡ i
  unfolding has_id
  Owned-has_id i x [] o h = cc
  Owned-has_id i x (y ∷ ids) o h = ground (arith, Owned-has_id i x ids o.1)

  pub named-IsOwn :
      (i : ℕ) (ids : List ℕ) (rs : List Row)
      → Owned i ids
      → Assigned rs
      → All (λ r. named ids r ≡ true → r.tenant ≡ i) rs
  named-IsOwn i ids [] o a = tt
  named-IsOwn i ids (r ∷ rs) o a =
      ((λ e. ground (arith, Owned-has_id i r.id ids o)), named-IsOwn i ids rs o a.1)

  give_back-IsSent :
      (n : ℕ) (k : Desk) (r : Row) (rs : List Row)
      → k.idx < n
      → Owned k.idx (map id_of (r ∷ rs))
      → All (IsSent n) (give_back k r rs).acts
  unfolding give_back
  give_back-IsSent n k r rs l o = ((l, o), tt)

  work-IsOwned :
      (c : Config) (n : ℕ) (k : Desk)
      → k.idx < n
      → Carries c k
          (λ rs w. Owned k.idx (map id_of rs) → Owned k.idx w.acked × All (IsSent n) w.acts)
  work-IsOwned c n k l = record {
    nothing = λ o. (tt, tt);
    delivered = λ r rs w q o. ((o.0, (q o.1).0), (q o.1).1);
    buried = λ r rs w q o. ((q o.1).0, ((l, o.0), (q o.1).1));
    returned = λ r rs o. (unfold give_back in tt, give_back-IsSent n k r rs l o);
  }

  All-append :
      (n : ℕ) (xs ys : List Act) → All (IsSent n) xs → All (IsSent n) ys → All (IsSent n) (xs ++ ys)
  All-append n [] ys p q = q
  All-append n (x ∷ xs) ys p q = (p.0, All-append n xs ys p.1 q)

  finish-IsSent :
      (n : ℕ) (k : Desk) (w : Work)
      → k.idx < n
      → Owned k.idx w.acked
      → All (IsSent n) w.acts
      → All (IsSent n) (finish k w)
  unfolding finish
  finish-IsSent n k w l o p = split w.acked refl o
    where
      split : (ids : List ℕ) → w.acked ≡ ids → Owned k.idx ids → All (IsSent n) (finish k w)
      split [] e q = rw (e, finish) p
      split (id ∷ ids) e q =
          rw (e, finish)
            (All-append n w.acts (Act.acks (k.fault id) k.idx (id ∷ ids) ∷ []) p ((l, q), tt))

  -- All that a worker asks of the store for a batch of its own may be asked at any time, whatever
  -- the core, the sink and the database answer meanwhile.
  pub worker-IsSent :
      (n : ℕ) (c : Config) (k : Desk) (batch : List Row) (e : Env) (s : St)
      → k.idx < n
      → Owned k.idx (map id_of batch)
      → All (IsSent n) (finish k (work c k batch e s).0)
  worker-IsSent n c k batch e s l o =
      let own =
        work-Carries c k
          (λ rs w. Owned k.idx (map id_of rs) → Owned k.idx w.acked × All (IsSent n) w.acts)
          (work-IsOwned c n k l) batch e s in
      let done = own o in finish-IsSent n k (work c k batch e s).0 l done.0 done.1
