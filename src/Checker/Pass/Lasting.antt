-- ===== src/Checker/Pass/Lasting.antt =====
-- A violation stays red.
use cmek.Base.{
  ℕ, ◌≤◌, ◌≡◌, refl, arith, List, [], ◌∷◌, ◌++◌, Option, none, some, Bool, true, false, not, ◌||◌,
  ◌&&◌, ◌==◌, Bool-cases, inl, inr, if◌then◌else◌,
}
use cmek.Queue.Store.{Census}
use cmek.Sink.{Lane}
use cmek.Checker.{Verdict, Window, windows, s2, s1_hits, s1_due, s4}
use cmek.Checker.Revocation.{
  Tracker, is_of, s3, check_all, check_group, check_tenant, note_seen, last_revoke,
}
use cmek.Checker.Pass.{Judge, Checker, Sight, Lights, s1, keep_census, once, run}

-- The later verdict counts no less than the earlier one, and is red if that is.
abbrev pub Lasts : Verdict → Verdict → Type 0
Lasts v w = (v.count ≤ w.count) × ((v.is_green || not w.is_green) ≡ true)

-- The same, where both passes report the light.
abbrev pub LastsIf : Option Verdict → Option Verdict → Type 0
LastsIf (some v) (some w) = Lasts v w
LastsIf (some v) none = Unit {0}
LastsIf none o = Unit {0}

abbrev GrowsLate : Tracker → Tracker → Type 0
GrowsLate t u = (t.late ≤ u.late) × ((not t.gap || u.gap) ≡ true)

GrowsLate-trans : (t u v : Tracker) → GrowsLate t u → GrowsLate u v → GrowsLate t v
GrowsLate-trans t u v p q = (omega (arith, p.0, q.0), ground (arith, p.1, q.1))

GrowsLate-self : (t : Tracker) → GrowsLate t t
GrowsLate-self t = (omega arith, ground arith)

note_seen-grows : (lane : Lane) (i r : ℕ) (t : Tracker) → GrowsLate t (note_seen lane i r t)
unfolding note_seen
note_seen-grows lane i r t = elim (Bool-cases (t.seen i == r)) [
  | inl e ↦ rw e (GrowsLate-self t)
  | inr e ↦ rw e (GrowsLate-self t)
]

check_tenant-grows :
    (lease : ℕ) (lane : Lane) (i : ℕ) (ws : List Window) (t : Tracker)
    → GrowsLate t (check_tenant lease lane i ws t)
unfolding check_tenant
check_tenant-grows lease lane i ws t =
    let n = note_seen lane i (last_revoke 0 ws) t in
    let p : GrowsLate t n = note_seen-grows lane i (last_revoke 0 ws) t in
    (omega (arith, p.0), ground (arith, p.1))

check_group-grows :
    (lease : ℕ) (lanes : ℕ → Lane) (ws : List Window) (t : Tracker)
    → GrowsLate t (check_group lease lanes ws t)
unfolding check_group
check_group-grows lease lanes [] t = GrowsLate-self t
check_group-grows lease lanes (w ∷ ws) t = check_tenant-grows lease (lanes w.idx) w.idx (w ∷ ws) t

if-grows : (b : Bool) (t u : Tracker) → GrowsLate t u → GrowsLate t (if b then t else u)
if-grows true t u p = GrowsLate-self t
if-grows false t u p = p

check_all-grows :
    (lease : ℕ) (lanes : ℕ → Lane) (ws held : List Window) (t : Tracker)
    → GrowsLate t (check_all lease lanes held ws t)
unfolding check_all
check_all-grows lease lanes [] held t = check_group-grows lease lanes held t
check_all-grows lease lanes (w ∷ ws) held t =
    let goes_on = is_of w.idx held in
    let u : Tracker = if goes_on then t else check_group lease lanes held t in
    let next : List Window = if goes_on then held ++ w ∷ [] else w ∷ [] in
    GrowsLate-trans t u (check_all lease lanes next ws u)
      (if-grows goes_on t (check_group lease lanes held t) (check_group-grows lease lanes held t))
      (check_all-grows lease lanes ws next u)

-- From one pass to a later one.
record Grows (c d : Checker) : Type 0 where
  pub hits : c.hits ≤ d.hits
  pub late : GrowsLate c.tracker d.tracker
  pub bad : c.bad ≤ d.bad

s1_hits-le : (o : Option ℕ) (n : ℕ) → n ≤ s1_hits o n
unfolding s1_hits
s1_hits-le none n = omega arith
s1_hits-le (some k) n = omega arith

s4-le : (n : ℕ) (o : Option Census) (sink : ℕ → ℕ) (m : ℕ) → m ≤ (s4 n o sink m).count
unfolding s4
s4-le n none sink m = omega arith
s4-le n (some c) sink m = omega arith

s3-grows : (j : Judge) (v : Sight) (t : Tracker) → GrowsLate t (s3 j.lease v.lanes v.events t).1
unfolding s3
s3-grows j v t = check_all-grows j.lease v.lanes (windows v.events) [] t

s1-hits : (j : Judge) (v : Sight) (c : Checker) → c.hits ≤ (s1 j v c).1.hits
unfolding s1
s1-hits j v c = elim (Bool-cases (s1_due j.full_scan_every c.last_scan v.now)) [
  | inl e ↦ rw e (s1_hits-le v.scan c.hits)
  | inr e ↦ rw e (omega arith)
]

s1-rest :
    (j : Judge) (v : Sight) (c : Checker)
    → ((s1 j v c).1.bad ≡ c.bad) × ((s1 j v c).1.tracker ≡ c.tracker)
unfolding s1
s1-rest j v c = elim (Bool-cases (s1_due j.full_scan_every c.last_scan v.now)) [
  | inl e ↦ rw e (refl, refl)
  | inr e ↦ rw e (refl, refl)
]

keep_census-Grows :
    (o : Option Census) (n : ℕ) (c : Checker) → c.bad ≤ n → Grows c (keep_census o n c)
keep_census-Grows none n c l = record {
  hits = omega arith;
  late = GrowsLate-self c.tracker;
  bad = l;
}
keep_census-Grows (some k) n c l = record {
  hits = omega arith;
  late = GrowsLate-self c.tracker;
  bad = l;
}

Grows-trans : (c d e : Checker) → Grows c d → Grows d e → Grows c e
Grows-trans c d e p q = record {
  hits = omega (arith, p.hits, q.hits);
  late = GrowsLate-trans c.tracker d.tracker e.tracker p.late q.late;
  bad = omega (arith, p.bad, q.bad);
}

-- The checker before a pass's census.
abbrev before_census : Judge → Sight → Checker → Checker
before_census j v c = record (s1 j v c).1 {
  tracker = (s3 j.lease v.lanes v.events (s1 j v c).1.tracker).1;
}

before_census-Grows : (j : Judge) (v : Sight) (c : Checker) → Grows c (before_census j v c)
before_census-Grows j v c =
    let r = s1-rest j v c in
    record {
      hits = s1-hits j v c;
      late = rw r.1 (s3-grows j v c.tracker);
      bad = omega (arith, r.0);
    }

once-Grows : (j : Judge) (v : Sight) (c : Checker) → Grows c (once j v c).1
unfolding once
once-Grows j v c =
    let d = before_census j v c in
    let e = keep_census v.census (s4 j.tenants v.census v.sink d.bad).count d in
    let p : Grows c e =
      Grows-trans c d e (before_census-Grows j v c)
        (keep_census-Grows v.census _ d (s4-le j.tenants v.census v.sink d.bad)) in
    record { hits = p.hits; late = p.late; bad = p.bad }

run-Grows : (j : Judge) (vs : List Sight) (c : Checker) → Grows c (run j vs c)
unfolding run
run-Grows j [] c = record { hits = omega arith; late = GrowsLate-self c.tracker; bad = omega arith }
run-Grows j (v ∷ vs) c =
    let d = (once j v c).1 in Grows-trans c d (run j vs d) (once-Grows j v c) (run-Grows j vs d)

abbrev of_count : ℕ → Verdict
of_count n = record { is_green = n == 0; count = n }

abbrev bounded : Tracker → Verdict
bounded t = record { is_green = t.late == 0 && not t.gap; count = t.late }

-- The report of S1 is of the hits after the pass.
abbrev IsOfHits : ℕ → Option Verdict → Type 0
IsOfHits n none = Unit {0}
IsOfHits n (some v) = v ≡ of_count n

s1-IsOfHits : (j : Judge) (v : Sight) (c : Checker) → IsOfHits (s1 j v c).1.hits (s1 j v c).0
unfolding s1
s1-IsOfHits j v c = elim (Bool-cases (s1_due j.full_scan_every c.last_scan v.now)) [
  | inl e ↦ rw e refl
  | inr e ↦ rw e tt
]

of_count-Lasts : (m n : ℕ) → m ≤ n → Lasts (of_count m) (of_count n)
of_count-Lasts m n l = (l, ground (arith, l))

bounded-Lasts : (t u : Tracker) → GrowsLate t u → Lasts (bounded t) (bounded u)
bounded-Lasts t u g = (g.0, ground (arith, g.0, g.1))

hits-LastsIf : (m n : ℕ) (o p : Option Verdict) → m ≤ n → IsOfHits m o → IsOfHits n p → LastsIf o p
hits-LastsIf m n none p l e f = tt
hits-LastsIf m n (some v) none l e f = tt
hits-LastsIf m n (some v) (some w) l e f = rw (e, f) (of_count-Lasts m n l)

keep_census-same :
    (o : Option Census) (n : ℕ) (c : Checker)
    → ((keep_census o n c).hits ≡ c.hits)
      × ((keep_census o n c).tracker ≡ c.tracker)
      × ((keep_census o n c).bad ≡ n)
keep_census-same none n c = (refl, refl, refl)
keep_census-same (some k) n c = (refl, refl, refl)

s4-of_count :
    (n : ℕ) (o : Option Census) (sink : ℕ → ℕ) (m : ℕ)
    → s4 n o sink m ≡ of_count (s4 n o sink m).count
unfolding s4
s4-of_count n none sink m = refl
s4-of_count n (some c) sink m = refl

-- What a pass reports is what its state counts afterwards.
record IsTold (l : Lights) (c : Checker) : Type 0 where
  pub s1 : IsOfHits c.hits l.s1
  pub s3 : l.s3 ≡ bounded c.tracker
  pub s4 : l.s4 ≡ of_count c.bad

once-IsTold : (j : Judge) (v : Sight) (c : Checker) → IsTold (once j v c).0 (once j v c).1
unfolding once
once-IsTold j v c =
    let d = before_census j v c in
    let n = (s4 j.tenants v.census v.sink d.bad).count in
    let k = keep_census-same v.census n d in
    record {
      s1 = rw k.0 (s1-IsOfHits j v c);
      s3 = rw k.1 (unfold s3 in refl);
      s4 = rw k.2 (s4-of_count j.tenants v.census v.sink d.bad);
    }

-- A violation stays red: from one pass of the checker to any later one, whatever passes lie
-- between, the counts of S1, S2, S3 and S4 do not go down and a light that was red is not green,
-- where both passes report it, if the sink's count of mismatches does not go down.
pub violations_stay :
    (j : Judge) (first last : Sight) (between : List Sight) (c : Checker)
    → first.mismatches ≤ last.mismatches
    → let l = once j first c in
      let m = (once j last (run j between l.1)).0 in
      LastsIf l.0.s1 m.s1 × Lasts l.0.s2 m.s2 × Lasts l.0.s3 m.s3 × Lasts l.0.s4 m.s4
violations_stay j first last between c q =
    let d = (once j first c).1 in
    let e = run j between d in
    let f = (once j last e).1 in
    let g : Grows d f = Grows-trans d e f (run-Grows j between d) (once-Grows j last e) in
    let t = once-IsTold j first c in
    let u = once-IsTold j last e in
    (
      hits-LastsIf d.hits f.hits (once j first c).0.s1 (once j last e).0.s1 g.hits t.s1 u.s1,
      unfold once in unfold s2 in of_count-Lasts first.mismatches last.mismatches q,
      rw (t.s3, u.s3) (bounded-Lasts d.tracker f.tracker g.late),
      rw (t.s4, u.s4) (of_count-Lasts d.bad f.bad g.bad),
    )
