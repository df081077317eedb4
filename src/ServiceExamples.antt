-- ===== src/ServiceExamples.antt =====
-- The theorems about the holder, the API and the ticks at concrete inputs.
use cmek.Base.{
  ℕ, ◌≤◌, ◌≡◌, ◌-◌, refl, arith, codes, List, [], ◌∷◌, length, same, none, some, Bytes, ◌*◌, ◌/◌,
  ◌==◌, get_elem?, true, false, not, ltb,
}
use cmek.World.Params.{small_params}
use cmek.World.Holder.{
  Holder, acquire, acquire_now, view, Call, HolderStep, Reached, new_holder, ensure, reset,
  let_hold_go, put, end_stop, build, begin_stop, cancel_site, heard, hear, is_idle,
}
use cmek.World.Holder.Lives.{is_cur}
use cmek.World.Holder.Histories.{one_world, closed_unheld, traffic_watched, unwatched_kept}
use cmek.Metrics.Hub.{close_all}
use cmek.World.Switches.{find_from, set_key, index_of}
use cmek.World.Sweep.{Sweeper, ms, sweep_turn}
use cmek.World.Sweep.Lingers.{Swept, no_claim_lingers}
use cmek.World.Wiring.{plant_of, tenant_id}
use cmek.World.Wiring.Names.{index_of-tenant_id}
use cmek.Queue.Lapses.{InTime}
use cmek.Queue.Histories.{Act, perform, empty_store}
use cmek.Queue.Store.{Cursor}
use cmek.Core.Types.{Envelope}
use cmek.Logx.{wait_ms, logged, IsSpaced, lines-IsSpaced}
use cmek.World.Ingest.{RetryAfter}
use cmek.Base.Int.{pos}
use cmek.Server.{Service, Decoded, with_given, serve, control_outcome}
use cmek.Server.Controls.{Board, key, press_key}
use cmek.Server.Refusals.{Request, handler, refused_unchanged}
use cmek.Server.Events.{EventRequest, post_event}
use cmek.Server.Honest.{IsHonest, post_event-IsHonest}
use cmek.Metrics.Trail.{new_trail}
use cmek.Metrics.Hist.{
  Edges, Hists, new_hists, record_sample, bucket, sums, over_slots, total, hist_buckets, rank_of,
  p99,
}
use cmek.Metrics.Hist.Rank.{IsIn, p99-IsIn}
use cmek.Metrics.Ticks.{TickSetup, Registry, Sources, no_reading, reset_peaks, peaks, grid_from}
use cmek.Metrics.Ticks.Conserved.{
  Move, run_moves, Balances, all_told, pending, plus, all_done, told_once,
}
use cmek.Metrics.Ticks.Peaks.{Field, field, highest, peaks_exact}
use cmek.Metrics.Ticks.Grid.{cell_state, cell_affected, grid-reads_back}
use cmek.Examples.{demo, start, revoked_world}
use cmek.WorldExamples.{small, fresh_knobs, idle, blank, gateway, front, setup}

-- A World built for curl, released, and reset while its goroutines end in time.
abbrev built : Holder
built = (ensure small_params true (new_holder small_params)).1

abbrev let_go : Holder
let_go = put 1 (let_hold_go 5 none (built.sites 1)) built

abbrev stopped : Holder
stopped = (reset small_params 9 true let_go).1

abbrev task_off : ℕ → Holder → Holder
task_off n h = put 1 (record (h.sites 1) { tasks = n }) h

abbrev quiet : Holder
quiet = task_off 0 (task_off 1 (task_off 2 (task_off 3 (task_off 4 stopped))))

abbrev renewed : Holder
renewed = (end_stop small_params 12 true false Call.resets 1 quiet).1

let_go-Reached : Reached small_params let_go
let_go-Reached =
    Reached.turned built let_go
      (Reached.turned (new_holder small_params) built Reached.fresh
        (HolderStep.ensures true (new_holder small_params) refl))
      (HolderStep.releases 5 1 0 none built (unfold ensure in unfold build in refl))

stopped-Reached : Reached small_params stopped
stopped-Reached =
    Reached.turned let_go stopped let_go-Reached
      (HolderStep.resets 9 true let_go (unfold ensure in unfold build in refl))

renewed-Reached : Reached small_params renewed
unfolding ensure build let_hold_go reset begin_stop cancel_site close_all heard hear
renewed-Reached =
    Reached.turned quiet renewed
      (Reached.turned (task_off 1 (task_off 2 (task_off 3 (task_off 4 stopped)))) quiet
        (Reached.turned (task_off 2 (task_off 3 (task_off 4 stopped))) _
          (Reached.turned (task_off 3 (task_off 4 stopped)) _
            (Reached.turned (task_off 4 stopped) _
              (Reached.turned stopped _ stopped-Reached (HolderStep.task_ends 1 4 stopped refl))
              (HolderStep.task_ends 1 3 (task_off 4 stopped) refl))
            (HolderStep.task_ends 1 2 (task_off 3 (task_off 4 stopped)) refl))
          (HolderStep.task_ends 1 1 (task_off 2 (task_off 3 (task_off 4 stopped))) refl))
        (HolderStep.task_ends 1 0 (task_off 1 (task_off 2 (task_off 3 (task_off 4 stopped)))) refl))
      (HolderStep.drains 12 true Call.resets 1 9 quiet refl refl refl)

one_world_example :
    ((renewed.sites 1).is_closed ≡ not (is_cur 1 renewed.cur))
    × ((renewed.sites 1).is_cancelled ≡ not (is_cur 1 renewed.cur))
one_world_example =
    one_world small_params renewed 1 renewed-Reached (unfold end_stop in unfold build in refl)

closed_unheld_example : ((renewed.sites 1).holds ≡ 0) × ((renewed.sites 1).tasks ≡ 0)
unfolding end_stop build reset ensure
closed_unheld_example = closed_unheld small_params renewed 1 renewed-Reached refl refl

-- A viewer comes and goes again.
abbrev viewed : Holder
viewed = (acquire small_params 7 true (new_holder small_params)).1

abbrev left : Holder
left = put 1 (let_hold_go 8 (some 0) (viewed.sites 1)) viewed

viewed-Reached : Reached small_params viewed
viewed-Reached =
    Reached.turned (new_holder small_params) viewed Reached.fresh
      (HolderStep.acquires 7 true (new_holder small_params) refl)

left-Reached : Reached small_params left
left-Reached = Reached.turned viewed left viewed-Reached (
    HolderStep.releases 8 1 0 (some 0) viewed
      (unfold acquire in unfold acquire_now in unfold build in unfold view in refl))

traffic_watched_example : (viewed.sites 1).is_running ≡ ltb 0 (length (viewed.sites 1).hub.subs)
traffic_watched_example = traffic_watched small_params viewed 1 viewed-Reached

unwatched_kept_example : is_idle small_params 90_000_000_000 (let_go.sites 1) ≡ false
unfolding ensure build let_hold_go
unwatched_kept_example = unwatched_kept small_params let_go 1 90_000_000_000 let_go-Reached refl

-- A restore of an unknown tenant's key.
abbrev board : Board
board = record { plant = small; knobs = fresh_knobs; stage = idle; defs = []; scripts = [] }

abbrev api : Service Board
api = record { states = λ i. board; holder = new_holder small_params }

abbrev restores : Decoded Bytes
restores = record { value = codes "restore"; ok = true }

abbrev stray : Request
stray = Request.keys (codes "t-9999") restores

stray-refused : 400 ≤ (serve small_params true (handler 7 3 stray) api).0.status
unfolding serve handler key press_key set_key find_from ensure build same control_outcome
stray-refused = omega arith

refused_unchanged_example :
    (serve small_params true (handler 7 3 stray) api).1.states 1 ≡ api.states 1
refused_unchanged_example = refused_unchanged small_params true 7 3 stray api 1 stray-refused

abbrev hello : EventRequest
hello = record { tenant = codes "t-0007"; body = codes "hello"; is_cut = false }

abbrev retries : RetryAfter
retries = small_params.retry_after

post_event-IsHonest_example :
    let r = with_given (post_event demo gateway retries revoked_world hello) (front, start) in
    IsHonest gateway hello.tenant front r.1.0 r.0
post_event-IsHonest_example =
    post_event-IsHonest demo gateway retries revoked_world hello front start

-- Edges at every millisecond, and three samples.
abbrev edges : Edges
edges = record { log = λ d. pos (d / 1_000_000); lo = λ b. b * 1_000_000 }

abbrev sampled : Hists
sampled =
    record_sample edges 0 5_100_000
      (record_sample edges 0 2_300_000 (record_sample edges 0 9_900_000 (new_hists 2)))

p99-IsIn_example :
    let counts = sums sampled 0 0 hist_buckets in
    (b : ℕ) × IsIn edges (rank_of (total counts)) 0 0 counts (p99 edges 0 sampled) b
unfolding sums over_slots record_sample bucket new_hists total
p99-IsIn_example = p99-IsIn edges 0 sampled (λ b. omega arith) (omega arith)

abbrev ticking : TickSetup
ticking = record {
  setup = setup;
  edges = edges;
  snapshot_events = 3;
  drain_slack = 16;
  capacity = 640;
  world = codes "w-1";
  p99_window = 2;
}

abbrev registry : Registry
registry = record {
  trail = new_trail setup;
  counters = front.counters;
  delivered = 0;
  hists = new_hists 2;
  card = blank;
  ticks = 0;
  key_fetch = codes "async";
  del_ring = λ k. 0;
  del_head = 0;
  last = no_reading;
  peak = none;
  verdicts = [];
}

abbrev sources : Sources
sources = record {
  now = 500_000_000;
  states = λ i. 1;
  total = 40;
  backlog = λ i. 4;
  inflight = λ p. 2;
  offered = 300;
  viewers = 1;
}

abbrev moves : List Move
moves =
    Move.ingests 3 (codes "accepted") true
    ∷ Move.ingests 4 (codes "overloaded") false
    ∷ Move.delivers 3 12_000_000
    ∷ Move.ticks sources
    ∷ Move.delivers 3 8_000_000
    ∷ []

told_once_example :
    let end = run_moves ticking moves registry in
    Balances (all_told end.0) (pending end.1) (plus (all_done moves) (pending registry))
told_once_example = told_once ticking moves registry

peaks_exact_example :
    let end = run_moves ticking moves (reset_peaks registry) in
    field (Field.tenants_in 1) (peaks end.1) ≡ highest (Field.tenants_in 1) end.0
peaks_exact_example = peaks_exact ticking (Field.tenants_in 1) moves registry

grid-reads_back_example :
    (c : ℕ) × (get_elem? (grid_from (λ i. 2) (λ i. i == 3) 0 6) 3 ≡ some c)
    × (cell_state c ≡ 2)
    × (cell_affected c ≡ (3 == 3))
grid-reads_back_example = grid-reads_back (λ i. 2) (λ i. i == 3) 6 3 (omega arith) (omega arith)

-- One message inserted and claimed for 300 ms, and a turn of the loop two seconds in.
abbrev envelope : Envelope
envelope = record { dek_id = codes "t-0000/1"; ciphertext = codes "x" }

abbrev at_start : Sweeper
at_start = record {
  last_reclaim = 0;
  last_expire = 0;
  store = empty_store 2;
  tenants = start.tenant ∷ [];
}

abbrev inserting : Act
inserting = Act.inserts false 100 1 1 envelope

abbrev claiming : Act
claiming = Act.claims false Cursor.drained 300 1 8

abbrev holding : Sweeper
holding = record at_start { store = perform inserting at_start.store }

abbrev claimed_once : Sweeper
claimed_once = record holding { store = perform claiming holding.store }

claimed_once-Swept : Swept demo small_params claimed_once
unfolding perform
claimed_once-Swept =
    Swept.acts claiming holding
      (Swept.acts inserting at_start (Swept.begins 0 2 (start.tenant ∷ [])) (ground arith)
        (ground arith))
      (ground arith) (ground arith)

no_claim_lingers_example :
    InTime
      (ms (2_000_000_000 - small_params.reclaim_interval))
      (sweep_turn demo small_params 2_000_000_000 false false claimed_once).store.rows
no_claim_lingers_example =
    no_claim_lingers demo small_params 2_000_000_000 false claimed_once (omega arith)
      claimed_once-Swept

index_of-tenant_id_example :
    index_of (plant_of (λ i. codes "x") small_params (1 ∷ 0 ∷ [])) (tenant_id (λ i. codes "x") 17)
    ≡ some 17
index_of-tenant_id_example =
    index_of-tenant_id (λ i. codes "x") small_params (1 ∷ 0 ∷ []) 17 (omega arith) (omega arith)

-- Two goroutines that both saw the stamp of the first line, and one that comes too early.
abbrev log_calls : List (ℕ × ℕ)
log_calls = (2_400, 2_100) ∷ (2_300, 1_000) ∷ (2_100, 1_000) ∷ (1_500, 1_000) ∷ (1_000, 0) ∷ []

lines-IsSpaced_example : IsSpaced (wait_ms 0) (logged 0 log_calls).lines
lines-IsSpaced_example = lines-IsSpaced 0 log_calls
