-- ===== src/QueueExamples.antt =====
-- The theorems about the queue and the checker at concrete inputs.
use cmek.Base.{
  ℕ, ◌+◌, ◌*◌, ◌<◌, ◌≡◌, ◌⊎◌, refl, arith, codes, List, [], ◌∷◌, Option, none, some, Bool, true,
  false, ltb, if◌then◌else◌,
}
use cmek.Core.Types.{Envelope}
use cmek.Queue.Balance.{sum_below}
use cmek.Queue.Rows.{has_id}
use cmek.Queue.Store.{new_row, Store, Cursor, Done, claim, census}
use cmek.Queue.Agreement.{IsAgreed}
use cmek.Queue.Histories.{
  Act, perform, history, AllProper, empty_store, history-IsAgreed, empty_store-IsAgreed,
  census_conserves,
}
use cmek.Queue.Scheduler.{View, Ring, next}
use cmek.Queue.Fairness.{MayRun, IsRing, next-work_conserving}
use cmek.Sink.Window.{lane_after}
use cmek.Kms.Fake.{KeyEvent}
use cmek.Checker.Revocation.{Tracker}
use cmek.Checker.{Window, Health, s4, books, s4_quiet}
use cmek.Queue.Workers.Turn.{Ask, pick, view_of, batch_of, pick-MayRun}
use cmek.Checker.Pass.{Judge, Sight, new_checker, once, run}
use cmek.Checker.Pass.Lasting.{Lasts, LastsIf, violations_stay}

abbrev text : Envelope
text = record { dek_id = codes "t-0001/1"; ciphertext = codes "x" }

-- Two tenants, three messages: one claimed and delivered, one claimed and late, one dead.
abbrev day : List Act
day =
    Act.inserts false 100 1 1 text
    ∷ Act.inserts false 110 1 2 text
    ∷ Act.inserts false 120 0 3 text
    ∷ Act.inserts false 125 0 3 text
    ∷ Act.claims false Cursor.drained 500 1 8
    ∷ Act.claims false (Cursor.stopped 0) 300 0 8
    ∷ Act.acks false 1 (1 ∷ [])
    ∷ Act.dead_letters false 1 2
    ∷ Act.releases true 0 (3 ∷ [])
    ∷ Act.reclaims false 400
    ∷ []

day-AllProper : AllProper day (empty_store 2)
unfolding perform history has_id new_row
day-AllProper = ground arith

census_conserves_example :
    let c = census (history day (empty_store 2)) in
    ((i : ℕ) → c.accepted i ≡ c.delivered i + c.ready i + c.claimed i + c.expired i + c.dead i)
    × (c.total ≡ sum_below 2 (λ i. c.ready i + c.claimed i))
    × (c.backlogged ≡ sum_below 2 (λ i. if ltb 0 (c.ready i + c.claimed i) then 1 else 0))
census_conserves_example = census_conserves 2 day day-AllProper

abbrev morning : List Act
morning = Act.inserts false 100 1 1 text ∷ Act.claims false Cursor.drained 200 1 8 ∷ []

empty-IsAgreed : IsAgreed (empty_store 2)
empty-IsAgreed = empty_store-IsAgreed 2

abbrev claimed_one : Store
claimed_one = history morning (empty_store 2)

morning-AllProper : AllProper morning (empty_store 2)
unfolding perform
morning-AllProper = (omega arith, ((omega arith, tt), tt))

claimed_one-IsAgreed : IsAgreed claimed_one
claimed_one-IsAgreed = history-IsAgreed morning (empty_store 2) morning-AllProper empty-IsAgreed

abbrev ring : Ring
ring = record {
  tenants = 4;
  light_turns = 2;
  two_class = true;
  cursor_a = 3;
  cursor_b = 0;
  turn = 0;
}

abbrev asleep : View
asleep = record { ready = λ i. i; backlog = λ i. i; is_hot = λ i. false }

next-work_conserving_example :
    ((next asleep (some 2) ring).1 ≡ ring) × ((asleep.ready 3 ≡ 0) ⊎ (asleep.is_hot 3 ≡ false))
unfolding next
next-work_conserving_example =
    next-work_conserving asleep (some 2) ring 3 (omega arith, omega arith) (omega arith) refl

s4_quiet_example : (s4 2 (some (books 2 morning)) (λ i. 0) 5).count ≡ 5
unfolding history census
s4_quiet_example =
    s4_quiet 2 morning (λ i. 0) 5 morning-AllProper (λ i l. (omega arith, omega arith))

abbrev revoked_twice : List KeyEvent
revoked_twice =
    record { kek_id = codes "kek-1"; idx = 1; at = 5; enabled = false }
    ∷ record { kek_id = codes "kek-1"; idx = 1; at = 9; enabled = true }
    ∷ record { kek_id = codes "kek-1"; idx = 1; at = 12; enabled = false }
    ∷ []

-- An episode that ended at 60, and one that is still open.
abbrev two_windows : List Window
two_windows =
    record { idx = 1; revoke = 10; restore = some 60 }
    ∷ record { idx = 1; revoke = 70; restore = none }
    ∷ []

abbrev tracker : Tracker
tracker = record { last_seq = λ i. 4; seen = λ i. 70; posted = λ i. 0; late = 2; gap = false }

abbrev judge : Judge
judge = record {
  tenants = 2;
  lease = 30;
  full_scan_every = 10;
  thresholds = record {
    l1_grace = 5;
    l1_for = 2;
    l1_floor = 10;
    l1_ratio = 2000;
    l4_settle = 5;
    workers = 2;
    claim_batch = 4;
    global_cap = 100;
    capacity = 50;
  };
  judges_l1 = true;
  judges_l4 = false;
}

abbrev idle_health : Health
idle_health = record {
  scenario = [];
  is_running = false;
  since = 0;
  p99 = none;
  rejections = 0;
  delivered = 9;
  within_shed = 0;
}

-- A key revoked twice, and what the scan finds.
abbrev sight : ℕ → Option ℕ → Sight
sight now scan = record {
  now = now;
  scan = scan;
  mismatches = now;
  events = revoked_twice;
  lanes = λ i. lane_after 8 (λ k. 10 * k) 12;
  census = some (books 2 morning);
  sink = λ i. 7;
  l1_health = idle_health;
  l4_health = idle_health;
}

-- The first pass finds a row, the one between fails to scan, and the last one finds none.
violations_stay_example :
    let l = once judge (sight 20 (some 1)) new_checker in
    let m = (once judge (sight 40 (some 0)) (run judge (sight 30 none ∷ []) l.1)).0 in
    LastsIf l.0.s1 m.s1 × Lasts l.0.s2 m.s2 × Lasts l.0.s3 m.s3 × Lasts l.0.s4 m.s4
violations_stay_example =
    violations_stay judge (sight 20 (some 1)) (sight 40 (some 0)) (sight 30 none ∷ []) new_checker
      (omega arith)

-- A turn that claims the one message of tenant 1.
abbrev one_message : Store
one_message = perform (Act.inserts false 100 1 1 text) (empty_store 4)

abbrev asking : Ask
asking = record { fault = false; cur = Cursor.drained; until = 500; batch = 8 }

abbrev hot_tenants : ℕ → Bool
hot_tenants i = ltb 0 i

pick-MayRun_example :
    let p = pick hot_tenants (some 25) asking one_message ring in
    (1 < 4)
    × MayRun (view_of hot_tenants one_message) 1
    × IsRing p.2
    × ((claim false Cursor.drained 500 1 8 one_message).0 ≡ Done.done (batch_of p.0))
unfolding pick perform view_of
pick-MayRun_example =
    let p = pick hot_tenants (some 25) asking one_message ring in
    pick-MayRun hot_tenants (some 25) asking one_message ring 1 (batch_of p.0)
      (omega arith, omega arith) refl
