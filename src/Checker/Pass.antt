-- ===== src/Checker/Pass.antt =====
-- `Once` and `Run` of internal/check/checker.go: one pass over all lights, and the passes in turn.
-- The detection lines of S3 are left out: they go to the timeline, and no light reads them. The
-- source marks an unset `lastSeq` by -1, and sets it before it reads it.
pub mod Lasting
use cmek.Base.{ℕ, List, [], ◌∷◌, Option, none, some, Bool, true, false, ◌==◌, if◌then◌else◌}
use cmek.Kms.Fake.{KeyEvent}
use cmek.Queue.Store.{Census}
use cmek.Sink.{Lane}
use cmek.Checker.{Verdict, Health, Thresholds, Watch, s1_due, s1_hits, s2, s4, l1, l4}
use cmek.Checker.Revocation.{Tracker, s3}

-- The part of `Config` that the lights do not already take.
pub record Judge : Type 0 where
  pub tenants : ℕ
  pub lease : ℕ
  pub full_scan_every : ℕ
  pub thresholds : Thresholds
  pub judges_l1 : Bool
  pub judges_l4 : Bool

-- `Checker`: the state of all lights, and the totals of the last census.
pub record Checker : Type 0 where
  pub last_scan : ℕ
  pub hits : ℕ
  pub tracker : Tracker
  pub bad : ℕ
  pub total : ℕ
  pub backlogged : ℕ
  pub l1_watch : Watch
  pub l4_watch : Watch

abbrev pub new_checker : Checker
new_checker = record {
  last_scan = 0;
  hits = 0;
  tracker = record { last_seq = λ i. 0; seen = λ i. 0; posted = λ i. 0; late = 0; gap = false };
  bad = 0;
  total = 0;
  backlogged = 0;
  l1_watch = record { since = 0; red = 0 };
  l4_watch = record { since = 0; red = 0 };
}

-- What a pass reads: the scan and the census, none if they fail, and the service's aggregates as L1
-- and as L4 find them.
pub record Sight : Type 0 where
  pub now : ℕ
  pub scan : Option ℕ
  pub mismatches : ℕ
  pub events : List KeyEvent
  pub lanes : ℕ → Lane
  pub census : Option Census
  pub sink : ℕ → ℕ
  pub l1_health : Health
  pub l4_health : Health

-- What a pass reports; a light that it does not report is none.
pub record Lights : Type 0 where
  pub s1 : Option Verdict
  pub s2 : Verdict
  pub s3 : Verdict
  pub s4 : Verdict
  pub l1 : Option Verdict
  pub l4 : Option Verdict

-- `s1`: the report, the last scan and the hits.
unfoldable pub s1 : Judge → Sight → Checker → Option Verdict × Checker
unfolding s1_due s1_hits
s1 j v c =
    let hits' = s1_hits v.scan c.hits in
    if s1_due j.full_scan_every c.last_scan v.now
    then (
      some (record { is_green = hits' == 0; count = hits' }),
      record c { last_scan = v.now; hits = hits' },
    )
    else (none, c)

-- The end of `s4`: the count, and the census that L4 reads unless it failed.
abbrev pub keep_census : Option Census → ℕ → Checker → Checker
keep_census none count c = record c { bad = count }
keep_census (some k) count c = record c { bad = count; total = k.total; backlogged = k.backlogged }

-- A light that is judged only with its flag on.
abbrev pub judged : Bool → Verdict × Watch → Watch → Option Verdict × Watch
judged true (v, w') w = (some v, w')
judged false p w = (none, w)

-- `Once`.
unfoldable pub once : Judge → Sight → Checker → Lights × Checker
unfolding s1 s2 s3 s4 l1 l4
once j v c =
    let (r1, c) = s1 j v c in
    let (r3, t) = s3 j.lease v.lanes v.events c.tracker in
    let r4 = s4 j.tenants v.census v.sink c.bad in
    let c = keep_census v.census r4.count (record c { tracker = t }) in
    let (r5, w5) = judged j.judges_l1 (l1 j.thresholds v.l1_health v.now c.l1_watch) c.l1_watch in
    let (r6, w6) =
      judged j.judges_l4 (l4 j.thresholds v.l4_health c.total c.backlogged v.now c.l4_watch)
        c.l4_watch in
    (
      record { s1 = r1; s2 = s2 v.mismatches; s3 = r3; s4 = r4; l1 = r5; l4 = r6 },
      record c { l1_watch = w5; l4_watch = w6 },
    )

-- `Run`: the passes, one after the other.
unfoldable pub run : Judge → List Sight → Checker → Checker
unfolding once
run j [] c = c
run j (v ∷ vs) c = run j vs (once j v c).1
