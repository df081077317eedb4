-- ===== src/Queue/Histories.antt =====
-- The store after any history of operations.
use cmek.Base.{
  ℕ, suc, ◌∙◌, ◌+◌, ◌<◌, ◌≡◌, refl, subst, arith, Option-cases, List, [], ◌∷◌, Bool, true, false,
  ltb, if◌then◌else◌,
}
use cmek.Core.Types.{Envelope}
use cmek.Queue.Ledger.{empty_ledger, backlog_of}
use cmek.Queue.Balance.{sum_below, loaded}
use cmek.Queue.Rows.{insert_row, tally, ready_of, claimed_of, named, is_victim}
use cmek.Queue.Store.{
  new_row, Store, Cursor, insert_message, claim, ack, release, dead_letter, reclaim, expire, census,
}
use cmek.Queue.Agreement.{
  IsAgreed, IsCounted, IsOwn, insert_message-IsAgreed, claim-IsAgreed, ack-IsAgreed,
  release-IsAgreed, dead_letter-IsAgreed,
}
use cmek.Queue.Sweeps.{sum_below-same, reclaim-IsAgreed, expire-IsAgreed}

-- One operation of the store with its arguments; the first is whether the database fails.
pub data Act : Type 0 where
  inserts : Bool → ℕ → ℕ → ℕ → Envelope → Act
  claims : Bool → Cursor → ℕ → ℕ → ℕ → Act
  acks : Bool → ℕ → List ℕ → Act
  releases : Bool → ℕ → List ℕ → Act
  dead_letters : Bool → ℕ → ℕ → Act
  reclaims : Bool → ℕ → Act
  expires : Bool → ℕ → ℕ → Act

unfoldable pub perform : Act → Store → Store
unfolding insert_message claim ack release dead_letter reclaim expire
perform (Act.inserts fault now i id env) s = (insert_message fault now i id env s).1
perform (Act.claims fault cur until i n) s = (claim fault cur until i n s).1
perform (Act.acks fault i ids) s = (ack fault i ids s).1
perform (Act.releases fault i ids) s = (release fault i ids s).1
perform (Act.dead_letters fault i id) s = (dead_letter fault i id s).1
perform (Act.reclaims fault now) s = (reclaim fault now s).1
perform (Act.expires fault before limit) s = (expire fault before limit s).1

unfoldable pub history : List Act → Store → Store
unfolding perform
history [] s = s
history (a ∷ acts) s = history acts (perform a s)

-- What the workers and the gate give: a tenant that exists, ids of that tenant's own messages; and
-- a claim whose rows can be counted.
abbrev pub IsProper : Act → Store → Type 0
IsProper (Act.inserts fault now i id env) s = i < s.tenants
IsProper (Act.claims fault cur until i n) s = (i < s.tenants) × IsCounted cur
IsProper (Act.acks fault i ids) s = (i < s.tenants) × IsOwn (named ids) i s
IsProper (Act.releases fault i ids) s = (i < s.tenants) × IsOwn (named ids) i s
IsProper (Act.dead_letters fault i id) s = (i < s.tenants) × IsOwn (is_victim id) i s
IsProper _ s = Unit {0}

abbrev pub AllProper : List Act → Store → Type 0
AllProper [] s = Unit {0}
AllProper (a ∷ acts) s = IsProper a s × AllProper acts (perform a s)

abbrev pub empty_store : ℕ → Store
empty_store n = record { tenants = n; rows = []; deks = []; ledger = empty_ledger; last_id = 0 }

pub empty_store-IsAgreed : (n : ℕ) → IsAgreed (empty_store n)
unfolding tally
empty_store-IsAgreed n = record {
  balanced = record {
    conserved = λ i. refl;
    total = unfold backlog_of in zeros n;
    backlogged = zeros n;
  };
  known = tt;
  ready = λ j. refl;
  claimed = λ j. refl;
  dead = λ j. refl;
}
  where
    zeros : (n : ℕ) → 0 ≡ sum_below n (λ i. 0)
    zeros ℕ.zero = refl
    zeros (suc n) = omega (arith, zeros n)

pub perform-IsAgreed : (a : Act) (s : Store) → IsProper a s → IsAgreed s → IsAgreed (perform a s)
unfolding perform
perform-IsAgreed (Act.inserts fault now i id env) s p v =
    insert_message-IsAgreed fault now i id env s p v
perform-IsAgreed (Act.claims fault cur until i n) s p v =
    claim-IsAgreed fault cur until i n s p.0 p.1 v
perform-IsAgreed (Act.acks fault i ids) s p v = ack-IsAgreed fault i ids s p.0 p.1 v
perform-IsAgreed (Act.releases fault i ids) s p v = release-IsAgreed fault i ids s p.0 p.1 v
perform-IsAgreed (Act.dead_letters fault i id) s p v = dead_letter-IsAgreed fault i id s p.0 p.1 v
perform-IsAgreed (Act.reclaims fault now) s p v = reclaim-IsAgreed fault now s v
perform-IsAgreed (Act.expires fault before limit) s p v = expire-IsAgreed fault before limit s v

pub perform-tenants : (a : Act) (s : Store) → (perform a s).tenants ≡ s.tenants
unfolding perform
perform-tenants (Act.inserts true now i id env) s = refl
perform-tenants (Act.inserts false now i id env) s =
    ground (arith, Option-cases (insert_row (new_row now i id env) s.rows))
perform-tenants (Act.claims true cur until i n) s = refl
perform-tenants (Act.claims false cur until i n) s = refl
perform-tenants (Act.acks true i ids) s = refl
perform-tenants (Act.acks false i ids) s = refl
perform-tenants (Act.releases true i ids) s = refl
perform-tenants (Act.releases false i ids) s = refl
perform-tenants (Act.dead_letters true i id) s = refl
perform-tenants (Act.dead_letters false i id) s = refl
perform-tenants (Act.reclaims true now) s = refl
perform-tenants (Act.reclaims false now) s = ground arith
perform-tenants (Act.expires true before limit) s = refl
perform-tenants (Act.expires false before limit) s = ground arith

history-tenants : (acts : List Act) (s : Store) → (history acts s).tenants ≡ s.tenants
unfolding history
history-tenants [] s = refl
history-tenants (a ∷ acts) s = history-tenants acts (perform a s) ∙ perform-tenants a s

-- Every operation keeps the ledger and the rows in agreement, so every proper history does.
pub history-IsAgreed :
    (acts : List Act) (s : Store) → AllProper acts s → IsAgreed s → IsAgreed (history acts s)
unfolding history
history-IsAgreed [] s p v = v
history-IsAgreed (a ∷ acts) s p v =
    history-IsAgreed acts (perform a s) p.1 (perform-IsAgreed a s p.0 v)

-- In the census of a store after a proper history from empty, whatever failed in it, each tenant's
-- accepted messages are the delivered, the ready, the claimed, the expired and the dead ones; the
-- total is the number of ready and claimed rows, and `backlogged` the number of tenants with one.
pub census_conserves :
    (n : ℕ) (acts : List Act)
    → AllProper acts (empty_store n)
    → let c = census (history acts (empty_store n)) in
      ((i : ℕ) → c.accepted i ≡ c.delivered i + c.ready i + c.claimed i + c.expired i + c.dead i)
      × (c.total ≡ sum_below n (λ i. c.ready i + c.claimed i))
      × (c.backlogged ≡ sum_below n (λ i. if ltb 0 (c.ready i + c.claimed i) then 1 else 0))
unfolding census
census_conserves n acts p =
    let s = history acts (empty_store n) in
    let v = history-IsAgreed acts (empty_store n) p (empty_store-IsAgreed n) in
    let e : s.tenants ≡ n = history-tenants acts (empty_store n) in
    let total =
      v.balanced.total
      ∙ sum_below-same s.tenants (backlog_of s.ledger)
          (λ i. tally (ready_of i) s.rows + tally (claimed_of i) s.rows)
          (λ i. unfold backlog_of in ground (arith, v.ready i, v.claimed i)) in
    let backlogged =
      v.balanced.backlogged
      ∙ sum_below-same s.tenants (loaded s.ledger)
          (λ i. if ltb 0 (tally (ready_of i) s.rows + tally (claimed_of i) s.rows) then 1 else 0)
          (λ i. ground (arith, v.ready i, v.claimed i)) in
    let in_use = λ (i : ℕ). tally (ready_of i) s.rows + tally (claimed_of i) s.rows in
    (
      λ i. ground (arith, v.balanced.conserved i, v.ready i, v.claimed i, v.dead i),
      subst (λ (m : ℕ). s.ledger.total ≡ sum_below m in_use) e total,
      subst (λ (m : ℕ). s.ledger.backlogged ≡ sum_below m (λ i. if ltb 0 (in_use i) then 1 else 0))
          e backlogged,
    )
