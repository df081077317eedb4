-- ===== src/Queue/Accounts.antt =====
-- What becomes of every accepted message, whatever fails: the counters that only rise, and the rows.
use cmek.Base.{
  ℕ, zero, suc, ◌+◌, ◌≡◌, refl, arith, List, [], ◌∷◌, All, Option, none, some, Bool, true, false,
  ltb, ◌==◌, if◌then◌else◌,
}
use cmek.Core.Types.{Envelope}
use cmek.Queue.Ledger.{
  Ledger, settle, note_insert, note_claim, note_ack, note_release, note_dead, note_expire,
  note_expired, note_reclaimed,
}
use cmek.Queue.Rows.{
  Row, tally, ready_of, claimed_of, dead_of, insert_row, claim_rows, delete_rows, update_rows,
  drop_rows, first_rows, to_ready, to_dead, named, is_victim, overdue, stale,
}
use cmek.Queue.Store.{
  Store, new_row, inserted, insert_message, claim, ack, release, dead_letter, reclaim, expire,
  overdue_counts, stale_counts, census,
}
use cmek.Queue.Tallies.{IsBelow, tally-insert_row, of_tenant, tally-own}
use cmek.Queue.Agreement.{IsOwn}
use cmek.Queue.Sweeps.{expire_count, stale_counts-absent}
use cmek.Queue.Histories.{Act, perform}

-- A tenant's row, in whatever state.
abbrev pub of : ℕ → Row → Bool
of j r = r.tenant == j

-- Every accepted message of a tenant is delivered, expired or a row.
abbrev pub IsAccounted : ℕ → Store → Type 0
IsAccounted j s =
    s.ledger.accepted j ≡ s.ledger.delivered j + s.ledger.expired j + tally (of j) s.rows

tally-of_states :
    (j : ℕ) (rs : List Row)
    → tally (ready_of j) rs + tally (claimed_of j) rs + tally (dead_of j) rs ≡ tally (of j) rs
unfolding tally
tally-of_states j [] = omega arith
tally-of_states j (r ∷ rs) = grind (arith, tally-of_states j rs)

of-claim_rows :
    (until i n j : ℕ) (rs : List Row) → tally (of j) (claim_rows until i n rs).0 ≡ tally (of j) rs
unfolding tally claim_rows
of-claim_rows until i n j [] = refl
of-claim_rows until i zero j (r ∷ rs) = refl
of-claim_rows until i (suc n) j (r ∷ rs) =
    ground (arith, of-claim_rows until i n j rs, of-claim_rows until i (suc n) j rs)

of-update_rows :
    (q : Row → Bool) (f : Row → Row) (j : ℕ) (rs : List Row)
    → ((r : Row) → (f r).tenant ≡ r.tenant)
    → tally (of j) (update_rows q f rs) ≡ tally (of j) rs
unfolding tally update_rows
of-update_rows q f j [] h = refl
of-update_rows q f j (r ∷ rs) h = ground (arith, of-update_rows q f j rs h, h r)

of-delete_rows :
    (q : Row → Bool) (j : ℕ) (rs : List Row)
    → tally (of j) (delete_rows q rs) + tally (of_tenant q j) rs ≡ tally (of j) rs
unfolding tally delete_rows
of-delete_rows q j [] = omega arith
of-delete_rows q j (r ∷ rs) = ground (arith, of-delete_rows q j rs)

of-drop_rows :
    (q : Row → Bool) (n j : ℕ) (rs : List Row)
    → tally (of j) (drop_rows q n rs) + tally (of j) (first_rows q n rs) ≡ tally (of j) rs
unfolding tally drop_rows first_rows
of-drop_rows q n j [] = omega arith
of-drop_rows q zero j (r ∷ rs) = omega arith
of-drop_rows q (suc n) j (r ∷ rs) =
    ground (arith, of-drop_rows q n j rs, of-drop_rows q (suc n) j rs)

-- The loop of Reclaim moves none of the three counters, that of Expire the expired ones.
record Rises (n : ℕ) (counts : ℕ → ℕ) (l m : Ledger) (j : ℕ) : Type 0 where
  pub accepted : m.accepted j ≡ l.accepted j
  pub delivered : m.delivered j ≡ l.delivered j
  pub expired : m.expired j ≡ l.expired j + (if ltb j n then counts j else 0)

note_reclaimed-Rises :
    (n : ℕ) (counts : ℕ → ℕ) (l : Ledger) (j : ℕ) → Rises n (λ i. 0) l (note_reclaimed n counts l) j
unfolding note_reclaimed note_release
note_reclaimed-Rises zero counts l j = record {
  accepted = refl;
  delivered = refl;
  expired = ground arith;
}
note_reclaimed-Rises (suc n) counts l j =
    let v = note_reclaimed-Rises n counts (note_release n (counts n) l) j in
    record {
      accepted = ground (arith, v.accepted);
      delivered = ground (arith, v.delivered);
      expired = ground (arith, v.expired);
    }

note_expired-Rises :
    (n : ℕ) (counts : ℕ → ℕ) (l : Ledger) (j : ℕ) → Rises n counts l (note_expired n counts l) j
unfolding note_expired note_expire settle
note_expired-Rises zero counts l j = record {
  accepted = refl;
  delivered = refl;
  expired = ground arith;
}
note_expired-Rises (suc n) counts l j =
    let v = note_expired-Rises n counts (note_expire n (counts n) l) j in
    record {
      accepted = ground (arith, v.accepted);
      delivered = ground (arith, v.delivered);
      expired = ground (arith, v.expired);
    }

inserted-IsAccounted :
    (i now id : ℕ) (env : Envelope) (j : ℕ) (s : Store) (o : Option (List Row))
    → insert_row (new_row now i id env) s.rows ≡ o
    → IsAccounted j s
    → IsAccounted j (inserted i o s).1
unfolding inserted note_insert
inserted-IsAccounted i now id env j s none e v = v
inserted-IsAccounted i now id env j s (some rows) e v =
    let t = tally-insert_row (of j) (new_row now i id env) s.rows rows e in
    unfold new_row in ground (arith, t, v)

reclaim-IsAccounted :
    (now j : ℕ) (fault : Bool) (s : Store) → IsAccounted j s → IsAccounted j (reclaim fault now s).1
unfolding reclaim
reclaim-IsAccounted now j true s v = v
reclaim-IsAccounted now j false s v =
    let m = note_reclaimed-Rises s.tenants (overdue_counts now s.rows) s.ledger j in
    ground (
      arith,
      m.accepted,
      m.delivered,
      m.expired,
      of-update_rows (overdue now) to_ready j s.rows (λ r. refl),
      v,
    )

expired-IsAccounted :
    (before limit j : ℕ) (s : Store)
    → All (IsBelow s.tenants) s.rows
    → IsAccounted j s
    → IsAccounted j (record s {
      rows = drop_rows (stale before) limit s.rows;
      ledger = note_expired s.tenants (stale_counts before limit s.rows) s.ledger;
    })
expired-IsAccounted before limit j s k v =
    let counts = stale_counts before limit s.rows in
    let m = note_expired-Rises s.tenants counts s.ledger j in
    let absent = stale_counts-absent before limit s k j in
    ground (
      arith,
      m.accepted,
      m.delivered,
      m.expired,
      absent,
      of-drop_rows (stale before) limit j s.rows,
      v,
    )

expire-IsAccounted :
    (before limit j : ℕ) (fault : Bool) (s : Store)
    → All (IsBelow s.tenants) s.rows
    → IsAccounted j s
    → IsAccounted j (expire fault before limit s).1
unfolding expire
expire-IsAccounted before limit j true s k v = v
expire-IsAccounted before limit j false s k v =
    ground (arith, expire_count before limit s k, expired-IsAccounted before limit j s k v)

-- An ack names only rows of its own tenant.
abbrev pub IsOwnAck : Act → Store → Type 0
IsOwnAck (Act.acks fault i ids) s = IsOwn (named ids) i s
IsOwnAck _ s = Unit {0}

pub perform-IsAccounted :
    (j : ℕ) (a : Act) (s : Store)
    → IsOwnAck a s
    → All (IsBelow s.tenants) s.rows
    → IsAccounted j s
    → IsAccounted j (perform a s)
unfolding perform insert_message claim note_claim ack note_ack release note_release dead_letter
    note_dead settle
perform-IsAccounted j (Act.inserts true now i id env) s o k v = v
perform-IsAccounted j (Act.inserts false now i id env) s o k v =
    inserted-IsAccounted i now id env j s (insert_row (new_row now i id env) s.rows) refl v
perform-IsAccounted j (Act.claims true cur until i n) s o k v = v
perform-IsAccounted j (Act.claims false cur until i n) s o k v =
    omega (arith, of-claim_rows until i n j s.rows, v)
perform-IsAccounted j (Act.acks true i ids) s o k v = v
perform-IsAccounted j (Act.acks false i ids) s o k v =
    ground (arith, of-delete_rows (named ids) j s.rows, tally-own (named ids) i j s.rows o, v)
perform-IsAccounted j (Act.releases true i ids) s o k v = v
perform-IsAccounted j (Act.releases false i ids) s o k v =
    omega (arith, of-update_rows (named ids) to_ready j s.rows (λ r. refl), v)
perform-IsAccounted j (Act.dead_letters true i id) s o k v = v
perform-IsAccounted j (Act.dead_letters false i id) s o k v =
    ground (arith, of-update_rows (is_victim id) to_dead j s.rows (λ r. refl), v)
perform-IsAccounted j (Act.reclaims fault now) s o k v = reclaim-IsAccounted now j fault s v
perform-IsAccounted j (Act.expires fault before limit) s o k v =
    expire-IsAccounted before limit j fault s k v

-- The census of a store whose messages are accounted for.
pub census-accounted :
    (j : ℕ) (s : Store)
    → IsAccounted j s
    → let c = census s in
      c.accepted j ≡ c.delivered j + c.ready j + c.claimed j + c.expired j + c.dead j
unfolding census
census-accounted j s v = omega (arith, tally-of_states j s.rows, v)
