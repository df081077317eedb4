-- ===== src/Queue/Sweeps.antt =====
-- `Reclaim` and `Expire`: their counts are exact, and the ledger still agrees with the rows.
use cmek.Base.{
  ℕ, zero, suc, ◌+◌, ◌≤◌, ◌<◌, ◌≡◌, refl, arith, List, [], ◌∷◌, Bool, true, false, ltb, ◌==◌,
  length, All, if◌then◌else◌,
}
use cmek.Queue.Ledger.{Ledger, settle, note_release, note_expire, note_expired, note_reclaimed}
use cmek.Queue.Balance.{sum_below, IsBalanced, note_release-IsBalanced, note_expire-IsBalanced}
use cmek.Queue.Rows.{
  Row, is_ready, tally, to_ready, update_rows, first_rows, drop_rows, overdue, stale,
}
use cmek.Queue.Tallies.{
  of_tenant, IsOfClaimed, tally-to_ready, All-update_rows, tally-drop_rows, All-drop_rows,
  All-first_rows, IsBelow, sum_below-tally,
}
use cmek.Queue.Store.{Store, Done, overdue_counts, reclaim, stale_counts, expire}
use cmek.Queue.Agreement.{IsAgreed}

-- What a loop over the first `n` tenants does to the three counters of rows.
record Moved (n : ℕ) (counts : ℕ → ℕ) (l m : Ledger) : Type 0 where
  ready_down : (j : ℕ) → m.ready j + (if ltb j n then counts j else 0) ≡ l.ready j
  claimed_same : (j : ℕ) → m.claimed j ≡ l.claimed j
  dead_same : (j : ℕ) → m.dead j ≡ l.dead j

note_expired-Moved :
    (n : ℕ) (counts : ℕ → ℕ) (l : Ledger)
    → ((j : ℕ) → j < n → counts j ≤ l.ready j)
    → Moved n counts l (note_expired n counts l)
unfolding note_expired note_expire settle
note_expired-Moved zero counts l h = record {
  ready_down = λ j. ground arith;
  claimed_same = λ j. refl;
  dead_same = λ j. refl;
}
note_expired-Moved (suc n) counts l h =
    let rest =
      note_expired-Moved n counts (note_expire n (counts n) l)
        (λ j lt. ground (arith, h j (omega arith))) in
    record {
      ready_down = λ j. ground (arith, rest.ready_down j, h n (omega arith));
      claimed_same = λ j. ground (arith, rest.claimed_same j);
      dead_same = λ j. ground (arith, rest.dead_same j);
    }

note_expired-IsBalanced :
    (n m : ℕ) (counts : ℕ → ℕ) (l : Ledger)
    → n ≤ m
    → ((j : ℕ) → j < n → counts j ≤ l.ready j)
    → IsBalanced m l
    → IsBalanced m (note_expired n counts l)
unfolding note_expired
note_expired-IsBalanced zero m counts l le h b = b
note_expired-IsBalanced (suc n) m counts l le h b =
    note_expired-IsBalanced n m counts (note_expire n (counts n) l) (omega arith)
      (λ j lt. unfold note_expire in unfold settle in ground (arith, h j (omega arith)))
      (note_expire-IsBalanced m n (counts n) l (omega arith) (h n (omega arith)) b)

record Returned (n : ℕ) (counts : ℕ → ℕ) (l m : Ledger) : Type 0 where
  claimed_down : (j : ℕ) → m.claimed j + (if ltb j n then counts j else 0) ≡ l.claimed j
  ready_up : (j : ℕ) → m.ready j ≡ l.ready j + (if ltb j n then counts j else 0)
  dead_same : (j : ℕ) → m.dead j ≡ l.dead j

note_reclaimed-Returned :
    (n : ℕ) (counts : ℕ → ℕ) (l : Ledger)
    → ((j : ℕ) → j < n → counts j ≤ l.claimed j)
    → Returned n counts l (note_reclaimed n counts l)
unfolding note_reclaimed note_release
note_reclaimed-Returned zero counts l h = record {
  claimed_down = λ j. ground arith;
  ready_up = λ j. ground arith;
  dead_same = λ j. refl;
}
note_reclaimed-Returned (suc n) counts l h =
    let rest =
      note_reclaimed-Returned n counts (note_release n (counts n) l)
        (λ j lt. ground (arith, h j (omega arith))) in
    record {
      claimed_down = λ j. ground (arith, rest.claimed_down j, h n (omega arith));
      ready_up = λ j. ground (arith, rest.ready_up j);
      dead_same = λ j. ground (arith, rest.dead_same j);
    }

note_reclaimed-IsBalanced :
    (n m : ℕ) (counts : ℕ → ℕ) (l : Ledger)
    → n ≤ m
    → ((j : ℕ) → j < n → counts j ≤ l.claimed j)
    → IsBalanced m l
    → IsBalanced m (note_reclaimed n counts l)
unfolding note_reclaimed
note_reclaimed-IsBalanced zero m counts l le h b = b
note_reclaimed-IsBalanced (suc n) m counts l le h b =
    note_reclaimed-IsBalanced n m counts (note_release n (counts n) l) (omega arith)
      (λ j lt. unfold note_release in ground (arith, h j (omega arith)))
      (note_release-IsBalanced m n (counts n) l (omega arith) (h n (omega arith)) b)

-- A tenant that does not exist has no rows.
tally-none :
    (q : Row → Bool) (n j : ℕ) (rs : List Row)
    → All (λ r. r.tenant < n) rs
    → n ≤ j
    → tally (of_tenant q j) rs ≡ 0
unfolding tally
tally-none q n j [] a le = refl
tally-none q n j (r ∷ rs) a le = ground (arith, tally-none q n j rs a.1 le)

tally-all : (rs : List Row) → tally (λ r. true) rs ≡ length rs
unfolding tally
tally-all [] = refl
tally-all (r ∷ rs) = omega (arith, tally-all rs)

tally-congr : (p q : Row → Bool) (rs : List Row) → ((r : Row) → p r ≡ q r) → tally p rs ≡ tally q rs
unfolding tally
tally-congr p q [] h = refl
tally-congr p q (r ∷ rs) h = ground (arith, h r, tally-congr p q rs h)

overdue-IsOfClaimed : (now : ℕ) → IsOfClaimed (overdue now)
overdue-IsOfClaimed now r h = ground arith

stale-ready : (before : ℕ) (r : Row) → stale before r ≡ true → is_ready r.state ≡ true
stale-ready before r h = ground arith

reclaimed-IsAgreed :
    (now : ℕ) (s : Store)
    → IsAgreed s
    → IsAgreed (record s {
      rows = update_rows (overdue now) to_ready s.rows;
      ledger = note_reclaimed s.tenants (overdue_counts now s.rows) s.ledger;
    })
reclaimed-IsAgreed now s v =
    let q = overdue now in
    let c = overdue-IsOfClaimed now in
    let counts = overdue_counts now s.rows in
    let moved = note_reclaimed-Returned s.tenants counts s.ledger le in
    record {
      balanced =
          note_reclaimed-IsBalanced s.tenants s.tenants counts s.ledger (omega arith) le v.balanced;
      known = All-update_rows (IsBelow s.tenants) q to_ready s.rows (λ r l. l) v.known;
      ready = λ j. ground (
        arith,
        moved.ready_up j,
        tally-to_ready q j s.rows c,
        tally-none q s.tenants j s.rows v.known,
        v.ready j,
      );
      claimed = λ j. ground (
        arith,
        moved.claimed_down j,
        tally-to_ready q j s.rows c,
        tally-none q s.tenants j s.rows v.known,
        v.claimed j,
      );
      dead = λ j. ground (arith, moved.dead_same j, tally-to_ready q j s.rows c, v.dead j);
    }
  where
    le : (j : ℕ) → j < s.tenants → overdue_counts now s.rows j ≤ s.ledger.claimed j
    le j lt =
        omega (arith, tally-to_ready (overdue now) j s.rows (overdue-IsOfClaimed now), v.claimed j)

-- The count that `Reclaim` compares with the rows updated is always theirs.
pub reclaim_count :
    (now : ℕ) (s : Store)
    → IsAgreed s
    → sum_below s.tenants (overdue_counts now s.rows) ≡ tally (overdue now) s.rows
reclaim_count now s v = sum_below-tally (overdue now) s.tenants s.rows v.known

pub reclaim-IsAgreed :
    (fault : Bool) (now : ℕ) (s : Store) → IsAgreed s → IsAgreed (reclaim fault now s).1
unfolding reclaim
reclaim-IsAgreed true now s v = v
reclaim-IsAgreed false now s v = ground (arith, reclaim_count now s v, reclaimed-IsAgreed now s v)

-- On a store whose ledger and rows agree, `Reclaim` fails only when the database does: it tells the
-- number of overdue claims, and the ledger moves by exactly these.
pub reclaim_exact :
    (now : ℕ) (s : Store)
    → IsAgreed s
    → ((reclaim false now s).0 ≡ Done.done (tally (overdue now) s.rows))
      × IsAgreed (reclaim false now s).1
unfolding reclaim
reclaim_exact now s v = (ground (arith, reclaim_count now s v), reclaim-IsAgreed false now s v)

-- A tenant that is none has no old message.
pub stale_counts-absent :
    (before limit : ℕ) (s : Store)
    → All (IsBelow s.tenants) s.rows
    → (j : ℕ) → s.tenants ≤ j
    → stale_counts before limit s.rows j ≡ 0
stale_counts-absent before limit s known j h = omega (
  arith,
  tally-congr (λ r. r.tenant == j) (of_tenant (λ r. true) j)
      (first_rows (stale before) limit s.rows) (λ r. ground arith),
  tally-none (λ r. true) s.tenants j (first_rows (stale before) limit s.rows)
      (All-first_rows (IsBelow s.tenants) (stale before) limit s.rows known) h,
)

expired-IsAgreed :
    (before limit : ℕ) (s : Store)
    → IsAgreed s
    → IsAgreed (record s {
      rows = drop_rows (stale before) limit s.rows;
      ledger = note_expired s.tenants (stale_counts before limit s.rows) s.ledger;
    })
expired-IsAgreed before limit s v =
    let q = stale before in
    let counts = stale_counts before limit s.rows in
    let moved = note_expired-Moved s.tenants counts s.ledger le in
    record {
      balanced =
          note_expired-IsBalanced s.tenants s.tenants counts s.ledger (omega arith) le v.balanced;
      known = All-drop_rows (IsBelow s.tenants) q limit s.rows v.known;
      ready = λ j. ground (
        arith,
        moved.ready_down j,
        tally-drop_rows q limit j s.rows (stale-ready before),
        absent j,
        v.ready j,
      );
      claimed = λ j. ground (
        arith,
        moved.claimed_same j,
        tally-drop_rows q limit j s.rows (stale-ready before),
        v.claimed j,
      );
      dead = λ j. ground (
        arith,
        moved.dead_same j,
        tally-drop_rows q limit j s.rows (stale-ready before),
        v.dead j,
      );
    }
  where
    le : (j : ℕ) → j < s.tenants → stale_counts before limit s.rows j ≤ s.ledger.ready j
    le j lt =
        omega (arith, tally-drop_rows (stale before) limit j s.rows (stale-ready before), v.ready j)

    absent : (j : ℕ) → s.tenants ≤ j → stale_counts before limit s.rows j ≡ 0
    absent = stale_counts-absent before limit s v.known

pub sum_below-same : (n : ℕ) (f g : ℕ → ℕ) → ((j : ℕ) → f j ≡ g j) → sum_below n f ≡ sum_below n g
sum_below-same zero f g h = refl
sum_below-same (suc n) f g h = omega (arith, h n, sum_below-same n f g h)

pub expire_count :
    (before limit : ℕ) (s : Store)
    → All (IsBelow s.tenants) s.rows
    → sum_below s.tenants (stale_counts before limit s.rows)
      ≡ length (first_rows (stale before) limit s.rows)
expire_count before limit s known =
    let rows = first_rows (stale before) limit s.rows in
    omega (
      arith,
      sum_below-same s.tenants (stale_counts before limit s.rows)
          (λ j. tally (of_tenant (λ r. true) j) rows)
          (λ j.
            tally-congr (λ r. r.tenant == j) (of_tenant (λ r. true) j) rows (λ r. ground arith)),
      sum_below-tally (λ r. true) s.tenants rows
          (All-first_rows (IsBelow s.tenants) (stale before) limit s.rows known),
      tally-all rows,
    )

pub expire-IsAgreed :
    (fault : Bool) (before limit : ℕ) (s : Store)
    → IsAgreed s
    → IsAgreed (expire fault before limit s).1
unfolding expire
expire-IsAgreed true before limit s v = v
expire-IsAgreed false before limit s v =
    ground (arith, expire_count before limit s v.known, expired-IsAgreed before limit s v)

-- On a store whose ledger and rows agree, `Expire` fails only when the database does: it tells the
-- number of old ready messages up to its limit, and the ledger moves by exactly these.
pub expire_exact :
    (before limit : ℕ) (s : Store)
    → IsAgreed s
    → ((expire false before limit s).0
        ≡ Done.done (length (first_rows (stale before) limit s.rows)))
      × IsAgreed (expire false before limit s).1
unfolding expire
expire_exact before limit s v =
    (ground (arith, expire_count before limit s v.known), expire-IsAgreed false before limit s v)
