-- ===== src/Queue/Lapses.antt =====
-- Which operations leave no claim that has lapsed before an instant.
use cmek.Base.{
  ℕ, ◌≤◌, ◌<◌, ◌≡◌, refl, sym, ◌∙◌, arith, List, [], ◌∷◌, All, Option, none, some, Bool, true,
  false, ◌==◌, ◌&&◌, if◌then◌else◌, Bool-cases, inl, inr, length,
}
use cmek.Queue.Rows.{
  Row, is_claimed, tally, overdue, lapsed_before, to_ready, to_dead, to_claimed, insert_row,
  update_rows, named, is_victim, stale, first_rows,
}
use cmek.Queue.Store.{
  Store, Done, new_row, inserted, insert_message, claim, ack, release, dead_letter, reclaim, expire,
  overdue_counts, stale_counts,
}
use cmek.Queue.Histories.{Act, perform}
use cmek.Queue.Balance.{sum_below}
use cmek.Queue.Tallies.{
  All-insert_row, All-claim_rows, All-delete_rows, All-update_rows, All-drop_rows, IsBelow,
  sum_below-tally,
}

-- No claim of the rows has lapsed before an instant.
abbrev pub IsFine : ℕ → Row → Type 0
IsFine t r = overdue t r ≡ false

abbrev pub InTime : ℕ → List Row → Type 0
InTime t rows = All (IsFine t) rows

to_claimed-IsFine : (t until : ℕ) (r : Row) → t ≤ until → IsFine t (to_claimed until r)
to_claimed-IsFine t until r l = ground (arith, l)

-- What was overdue is given back.
given_back-InTime : (t : ℕ) (rows : List Row) → InTime t (update_rows (overdue t) to_ready rows)
unfolding update_rows
given_back-InTime t [] = tt
given_back-InTime t (r ∷ rows) = (go (overdue t r) refl, given_back-InTime t rows)
  where
    go : (b : Bool) → overdue t r ≡ b → IsFine t (if b then to_ready r else r)
    go true e = refl
    go false e = e

tally-InTime : (t : ℕ) (rows : List Row) → tally (overdue t) rows ≡ 0 → InTime t rows
unfolding tally
tally-InTime t [] e = tt
tally-InTime t (r ∷ rows) e = elim (Bool-cases (overdue t r)) [
  | inl h ↦ absurd (ground (arith, e, h))
  | inr h ↦ (h, tally-InTime t rows (ground (arith, e, h)))
]

-- The rows after a statement whose count may differ.
counted-rows :
    (P : List Row → Type 0) (b c : Bool) (x y z : Done ℕ × Store)
    → P x.1.rows
    → P y.1.rows
    → P z.1.rows
    → P (if b then x else if c then y else z).1.rows
counted-rows P true c x y z p q r = p
counted-rows P false true x y z p q r = q
counted-rows P false false x y z p q r = r

-- An operation that claims nothing for a time before `t`.
abbrev pub IsTimely : ℕ → Act → Type 0
IsTimely t (Act.claims fault cur until i n) = t ≤ until
IsTimely t _ = Unit {0}

-- What holds of a row also when it is given back or buried.
record IsKept (P : Row → Type 0) : Type 0 where
  pub readied : (r : Row) → P r → P (to_ready r)
  pub buried : (r : Row) → P r → P (to_dead r)

-- What an operation must keep of its own: the row that it inserts, the rows that it claims.
abbrev Grants : (Row → Type 0) → Act → Type 0
Grants P (Act.inserts fault now i id env) = P (new_row now i id env)
Grants P (Act.claims fault cur until i n) = (r : Row) → P r → P (to_claimed until r)
Grants P _ = Unit {0}

module _ (P : Row → Type 0) (k : IsKept P) where
  reclaim-All :
      (now : ℕ) (fault : Bool) (s : Store) → All P s.rows → All P (reclaim fault now s).1.rows
  unfolding reclaim
  reclaim-All now true s v = v
  reclaim-All now false s v =
      let w = All-update_rows P (overdue now) to_ready s.rows k.readied v in
      counted-rows (All P) (sum_below s.tenants (overdue_counts now s.rows) == 0)
        (tally (overdue now) s.rows == sum_below s.tenants (overdue_counts now s.rows)) _ _ _ v w w

  expire-All :
      (before limit : ℕ) (fault : Bool) (s : Store)
      → All P s.rows
      → All P (expire fault before limit s).1.rows
  unfolding expire
  expire-All before limit true s v = v
  expire-All before limit false s v =
      let w = All-drop_rows P (stale before) limit s.rows v in
      let total = sum_below s.tenants (stale_counts before limit s.rows) in
      counted-rows (All P) (total == 0) (length (first_rows (stale before) limit s.rows) == total) _
        _ _ v w w

  perform-All : (a : Act) (s : Store) → Grants P a → All P s.rows → All P (perform a s).rows
  unfolding perform insert_message inserted claim ack release dead_letter
  perform-All (Act.inserts true now i id env) s l v = v
  perform-All (Act.inserts false now i id env) s l v =
      go (insert_row (new_row now i id env) s.rows) refl
    where
      go :
          (o : Option (List Row))
          → insert_row (new_row now i id env) s.rows ≡ o
          → All P (inserted i o s).1.rows
      go none e = v
      go (some rows) e = All-insert_row P (new_row now i id env) s.rows rows e l v
  perform-All (Act.claims true cur until i n) s l v = v
  perform-All (Act.claims false cur until i n) s l v = All-claim_rows P until i n s.rows l v
  perform-All (Act.acks true i ids) s l v = v
  perform-All (Act.acks false i ids) s l v = All-delete_rows P (named ids) s.rows v
  perform-All (Act.releases true i ids) s l v = v
  perform-All (Act.releases false i ids) s l v =
      All-update_rows P (named ids) to_ready s.rows k.readied v
  perform-All (Act.dead_letters true i id) s l v = v
  perform-All (Act.dead_letters false i id) s l v =
      All-update_rows P (is_victim id) to_dead s.rows k.buried v
  perform-All (Act.reclaims fault now) s l v = reclaim-All now fault s v
  perform-All (Act.expires fault before limit) s l v = expire-All before limit fault s v

-- A Reclaim that the database does not fail leaves no overdue claim of the tenants that it counts.
pub reclaim-cleared :
    (now : ℕ) (s : Store) → All (IsBelow s.tenants) s.rows → InTime now (reclaim false now s).1.rows
unfolding reclaim
reclaim-cleared now s v =
    let w = given_back-InTime now s.rows in
    let total = sum_below s.tenants (overdue_counts now s.rows) in
    let known : total ≡ tally (overdue now) s.rows =
      sum_below-tally (overdue now) s.tenants s.rows v in
    elim (Bool-cases (total == 0)) [
      | inl e ↦ rw e (tally-InTime now s.rows (sym known ∙ ground (arith, e)))
      | inr e ↦ rw e (
          counted-rows (InTime now) false (tally (overdue now) s.rows == total)
            (Done.failed, record s { rows = update_rows (overdue now) to_ready s.rows }) _ _ w w w)
    ]

IsFine-IsKept : (t : ℕ) → IsKept (IsFine t)
IsFine-IsKept t = record { readied = λ r f. refl; buried = λ r f. refl }

IsBelow-IsKept : (n : ℕ) → IsKept (IsBelow n)
IsBelow-IsKept n = record { readied = λ r l. l; buried = λ r l. l }

pub perform-InTime :
    (t : ℕ) (a : Act) (s : Store) → IsTimely t a → InTime t s.rows → InTime t (perform a s).rows
perform-InTime t a s l v = perform-All (IsFine t) (IsFine-IsKept t) a s (grants a l) v
  where
    grants : (a : Act) → IsTimely t a → Grants (IsFine t) a
    grants (Act.inserts fault now i id env) l = unfold new_row in refl
    grants (Act.claims fault cur until i n) l = λ r f. to_claimed-IsFine t until r l
    grants (Act.acks fault i ids) l = tt
    grants (Act.releases fault i ids) l = tt
    grants (Act.dead_letters fault i id) l = tt
    grants (Act.reclaims fault now) l = tt
    grants (Act.expires fault before limit) l = tt

-- An operation that inserts no row of a tenant from `n` on.
abbrev pub IsWithin : ℕ → Act → Type 0
IsWithin n (Act.inserts fault now i id env) = i < n
IsWithin n _ = Unit {0}

pub perform-IsBelow :
    (n : ℕ) (a : Act) (s : Store)
    → IsWithin n a
    → All (IsBelow n) s.rows
    → All (IsBelow n) (perform a s).rows
perform-IsBelow n a s l v = perform-All (IsBelow n) (IsBelow-IsKept n) a s (grants a l) v
  where
    grants : (a : Act) → IsWithin n a → Grants (IsBelow n) a
    grants (Act.inserts fault now i id env) l = unfold new_row in l
    grants (Act.claims fault cur until i k) l = λ r q. q
    grants (Act.acks fault i ids) l = tt
    grants (Act.releases fault i ids) l = tt
    grants (Act.dead_letters fault i id) l = tt
    grants (Act.reclaims fault now) l = tt
    grants (Act.expires fault before limit) l = tt

-- An instant of no overdue claim is one for every earlier instant.
pub earlier-InTime : (t u : ℕ) (rows : List Row) → t ≤ u → InTime u rows → InTime t rows
earlier-InTime t u [] l v = tt
earlier-InTime t u (r ∷ rows) l v = (earlier r v.0, earlier-InTime t u rows l v.1)
  where
    earlier : (r : Row) → IsFine u r → IsFine t r
    earlier r f = go (is_claimed r.state) r.claimed_until f
      where
        go :
            (b : Bool) (o : Option ℕ)
            → (b && lapsed_before u o) ≡ false
            → (b && lapsed_before t o) ≡ false
        go false o g = refl
        go true none g = refl
        go true (some k) g = ground (arith, g, l)
