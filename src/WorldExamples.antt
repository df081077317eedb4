-- ===== src/WorldExamples.antt =====
-- The theorems about the front door and the metrics at concrete inputs.
use cmek.Base.{
  ℕ, ◌≡◌, refl, arith, codes, List, [], ◌∷◌, count, lookup, same, take, min, none, some, true,
  false, leb, if◌then◌else◌,
}
use cmek.Queue.Histories.{empty_store}
use cmek.Metrics.Trail.{Setup, AuditEntry, no_entry, tenant_audit}
use cmek.Metrics.Trail.Newest.{audited, about, tenant_audit-take}
use cmek.Metrics.Trail.Flush.{transition_lines, told, counted, tells, transition_lines-exact}
use cmek.World.Ingest.{Gateway, Front, ingest_id}
use cmek.World.Ingest.Settles.{event_of}
use cmek.World.Ingest.Books.{IsBooked, ingest_id-IsBooked}
use cmek.World.Ingest.Lateness.{is_accepted, no_late_ingest}
use cmek.World.Ingest.Shares.{never_shed_within}
use cmek.Metrics.Hub.{Hub}
use cmek.Metrics.Hub.Viewers.{IsTold}
use cmek.Metrics.Card.{Card, set_scenario, set_targets, is_target, IsMarked, set_targets-IsMarked}
use cmek.World.Scenarios.{Scenario, Stage, launch, free_slot, leave_targets, hide_card, Step}
use cmek.World.Scenarios.Showing.{Polled, running_on_card, set_scenario-IsMarked}
use cmek.World.Scenarios.Hidden.{Steps, hidden_start}
use cmek.Core.Types.{Fetch}
use cmek.World.Params.{small_params}
use cmek.World.Switches.{Plant, Knobs}
use cmek.World.Scripts.{Name, script, run_script}
use cmek.World.Scripts.Fresh.{IsFresh, run_script-IsFresh}
use cmek.Examples.{demo, warm_tenant-Inv, revoked_world, start, clear}
use cmek.WorkerExamples.{late_world, late_world-IsFaithful}

abbrev pub setup : Setup
setup = record { tenants = 6; providers = 3; audit_ring = 2; timeline_ring = 4; aggregate_min = 3 }

abbrev parks : ℕ → AuditEntry
parks i = record no_entry { at = 5_000_000_000; idx = some i; op = codes "state"; from = 1; to = 2 }

abbrev log : List AuditEntry
log = parks 1 ∷ parks 4 ∷ parks 1 ∷ parks 1 ∷ parks 0 ∷ []

tenant_audit-take_example :
    tenant_audit setup (some 1) 10 (audited setup log) ≡ take (min 10 2) (about 1 log)
tenant_audit-take_example = tenant_audit-take setup log 1 10 (omega arith) (omega arith)

abbrev buffer : List (ℕ × AuditEntry)
buffer = (0, parks 0) ∷ (4, parks 4) ∷ (1, parks 1) ∷ (1, parks 1) ∷ []

transition_lines-exact_example :
    (told setup (0, 1, 2) (transition_lines setup buffer [] buffer)
      ≡ counted setup (0, 1, 2) buffer)
    × (count (tells setup (0, 1, 2)) (transition_lines setup buffer [] buffer)
        ≡ (if leb 3 (counted setup (0, 1, 2) buffer) then 1 else counted setup (0, 1, 2) buffer))
transition_lines-exact_example = transition_lines-exact setup (0, 1, 2) buffer (omega arith)

abbrev pub gateway : Gateway
gateway = record {
  index = (codes "t-0007", 1) ∷ [];
  limits = record { tenant_cap = 500; global_cap = 1000; is_fair = true };
  granted = true;
  aead = clear;
  iv = 0;
  affected = λ i. false;
  fault = false;
}

abbrev pub front : Front
front = record {
  store = empty_store 2;
  counters = record {
    accepted = 0;
    rate_limited = 0;
    backlog_full = 0;
    overloaded = 0;
    key_unavailable = 0;
    key_revoked = 0;
    internal = 0;
    rej_within = 0;
    rej_over = 0;
    over_within = 0;
    healthy_rej = 0;
  };
}

ingest_id-IsBooked_example :
    IsBooked gateway
      (event_of demo (codes "t-0007") (codes "hello") revoked_world start)
      1
      front
      start
      (ingest_id demo gateway (codes "t-0007") (codes "hello") front revoked_world start)
unfolding lookup same
ingest_id-IsBooked_example =
    ingest_id-IsBooked demo gateway (codes "t-0007") (codes "hello") front revoked_world start 1
      refl

no_late_ingest_example :
    is_accepted (ingest_id demo gateway (codes "t-0007") (codes "hello") front late_world start).0.0
    ≡ false
no_late_ingest_example =
    no_late_ingest demo 150 late_world gateway (codes "t-0007") (codes "hello") front start
      late_world-IsFaithful (λ n. omega arith) warm_tenant-Inv

never_shed_within_example :
    (ingest_id demo gateway
      (codes "t-0007")
      (codes "hello")
      front
      revoked_world
      start).0.1.counters.over_within
    ≡ 0
never_shed_within_example =
    never_shed_within demo gateway (codes "t-0007") (codes "hello") front revoked_world start refl

abbrev pub blank : Card
blank = record {
  name = [];
  phase = [];
  ends_at = 0;
  since = 0;
  cleared_at = 0;
  recovered_at = 0;
  drained_at = 0;
  targets = [];
  affected = λ i. false;
  p99_size = 20;
  p99_head = 0;
  p99_used = 0;
  p99_ring = λ k. 0;
  baseline = 0;
  last_healthy = 0;
  healthy_rej = 0;
}

abbrev pub idle : Stage
idle = record {
  cur = none;
  is_stopping = false;
  target = none;
  signal = false;
  card = blank;
  leaving = 0;
  hiding = 0;
}

abbrev surge_run : Scenario
surge_run = record {
  name = codes "tenant_surge";
  targets = 3 ∷ [];
  first = record { name = codes "surge_run"; dur = 60 };
  others = [];
}

abbrev outage_run : Scenario
outage_run = record {
  name = codes "provider_outage";
  targets = 1 ∷ 2 ∷ [];
  first = record { name = codes "fault"; dur = 60 };
  others = [];
}

-- One run from start to end, then a second.
abbrev surged : Stage
surged = launch 5 surge_run idle

abbrev ended : Stage
ended = hide_card 66 (leave_targets (free_slot surged))

ended-Polled : Polled idle ended
ended-Polled =
    Polled.after (leave_targets (free_slot surged)) ended
      (Polled.after (free_slot surged) (leave_targets (free_slot surged))
        (Polled.after surged (free_slot surged)
          (Polled.after idle surged Polled.here (Step.starts 5 surge_run idle refl refl refl) refl)
          (Step.frees surge_run surged (unfold launch in refl)) tt)
        (Step.leaves 0 (free_slot surged) (unfold free_slot in unfold launch in refl)) tt)
      (Step.hides 66 0 (leave_targets (free_slot surged))
        (unfold leave_targets in unfold free_slot in unfold launch in refl))
      tt

running_on_card_example :
    let s = launch 70 outage_run ended in
    (s.card.name ≡ outage_run.name) × ((i : ℕ) → s.card.affected i ≡ is_target i outage_run.targets)
running_on_card_example =
    running_on_card idle (launch 70 outage_run ended) outage_run
      (refl, refl, refl, refl, refl, λ i. refl)
      (Polled.after ended (launch 70 outage_run ended) ended-Polled
        (Step.starts 70 outage_run ended
          (unfold hide_card in unfold leave_targets in unfold free_slot in refl)
          (unfold hide_card in unfold leave_targets in unfold free_slot in unfold launch in refl)
          refl)
        (unfold hide_card in unfold set_scenario in refl))
      (unfold launch in refl)

surged-IsMarked : IsMarked surged.card
unfolding launch
surged-IsMarked =
    set_scenario-IsMarked 5 surge_run.name surge_run.first.name 65
      (set_targets surge_run.targets blank)
      (set_targets-IsMarked surge_run.targets blank (λ i. refl))

hidden_start_example :
    let s' = hide_card 66 (leave_targets (launch 66 outage_run (free_slot surged))) in
    Steps surged s'
    × (s'.cur ≡ some outage_run)
    × (s'.card.name ≡ [])
    × ((i : ℕ) → s'.card.affected i ≡ false)
hidden_start_example =
    hidden_start 66 surge_run outage_run surged (unfold launch in refl) (unfold launch in refl) refl
      surged-IsMarked

abbrev pub small : Plant
small = record {
  params = small_params;
  ids = codes "t-0000" ∷ codes "t-0001" ∷ codes "t-0002" ∷ codes "t-0003" ∷ codes "t-0004" ∷ [];
  by_rank = 3 ∷ 0 ∷ 4 ∷ 1 ∷ 2 ∷ [];
}

abbrev pub fresh_knobs : Knobs
fresh_knobs = record {
  mult = λ i. 1_000_000;
  global = 1_000_000;
  kms = record { keks = []; prov_faults = []; kek_faults = []; truth = [] };
  fetch = λ i. Fetch.async;
}

fresh_knobs-IsFresh : IsFresh fresh_knobs
unfolding lookup
fresh_knobs-IsFresh = (λ i. refl, refl, λ i. refl, λ q. refl, λ q. refl, λ id. refl)

-- A no-cache run that is stopped while the provider's blip lasts.
run_script-IsFresh_example : IsFresh (run_script small 7 (script small Name.no_cache) 2 fresh_knobs)
run_script-IsFresh_example =
    run_script-IsFresh small 7 Name.no_cache 2 fresh_knobs fresh_knobs-IsFresh

-- Two viewers of one slot each, one of whom has not read yet.
abbrev watched : Hub
watched = record {
  subs = record { id = 1; queue = [] } ∷ record { id = 0; queue = codes "tick" ∷ [] } ∷ [];
  depth = 1;
  is_closed = false;
  told = 2 ∷ 1 ∷ [];
  given = 2;
  cancelled = [];
}

watched-IsTold : IsTold watched
watched-IsTold = record {
  counted = refl;
  closed = λ e. absurd cc;
  bounded = (omega arith, (omega arith, tt));
}
