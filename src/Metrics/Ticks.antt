-- ===== src/Metrics/Ticks.antt =====
-- internal/metrics/registry.go: the tick, which turns what was counted since the last one into a
-- snapshot, and what it keeps for the readings of others. A rate is left as the tick's count, which
-- the code multiplies by the ticks of a second; a map by provider is a function of its number.
pub mod Conserved
pub mod Peaks
pub mod Grid
use cmek.Base.{
  ℕ, zero, suc, ◌+◌, ◌-◌, ◌/◌, ◌%◌, ◌≤◌, ◌≡◌, max, Bytes, codes, Map, insert, List, [], ◌∷◌, ◌++◌,
  Option, none, some, Bool, true, false, ltb, leb, not, ◌==◌, ◌&&◌, if◌then◌else◌, set_at,
}
use cmek.Metrics.Trail.{Setup, AuditEntry, Event, Trail, audit_entry, events}
use cmek.Metrics.Trail.Flush.{flush_transitions}
use cmek.Metrics.Counters.{Counters, note_ingest}
use cmek.Metrics.Card.{Card, keep_p99, stamp, is_set, is_empty, sum_slots}
use cmek.Metrics.Hist.{Edges, Hists, record_sample, roll}

-- `Config`, as far as a tick reads it.
pub record TickSetup : Type 0 where
  pub setup : Setup
  pub edges : Edges
  pub snapshot_events : ℕ
  pub drain_slack : ℕ
  pub capacity : ℕ
  pub world : Bytes
  pub p99_window : ℕ

-- `Reading`.
pub record Reading : Type 0 where
  pub delivered : ℕ
  pub kms_calls : ℕ
  pub accepted : ℕ
  pub healthy_p99 : ℕ
  pub affected_p99 : ℕ
  pub inflight : ℕ → ℕ
  pub by_state : ℕ → ℕ
  pub backlog : ℕ
  pub provider_calls : ℕ → ℕ

abbrev pub no_reading : Reading
no_reading = record {
  delivered = 0;
  kms_calls = 0;
  accepted = 0;
  healthy_p99 = 0;
  affected_p99 = 0;
  inflight = λ p. 0;
  by_state = λ s. 0;
  backlog = 0;
  provider_calls = λ p. 0;
}

-- `verdict`.
pub record Light : Type 0 where
  pub ok : Bool
  pub n : ℕ
  pub at : ℕ
  pub detail : Bytes

-- `Registry`; `peak` is none while no peak window is open.
pub record Registry : Type 0 where
  pub trail : Trail
  pub counters : Counters
  pub delivered : ℕ
  pub hists : Hists
  pub card : Card
  pub ticks : ℕ
  pub key_fetch : Bytes
  pub del_ring : ℕ → ℕ
  pub del_head : ℕ
  pub last : Reading
  pub peak : Option Reading
  pub verdicts : Map Light

-- What a tick reads elsewhere: the clock, the tenants' states and backlogs, the calls inside each
-- provider, the offered rate and the number of viewers.
pub record Sources : Type 0 where
  pub now : ℕ
  pub states : ℕ → ℕ
  pub total : ℕ
  pub backlog : ℕ → ℕ
  pub inflight : ℕ → ℕ
  pub offered : ℕ
  pub viewers : ℕ

-- `snapshot`; `ingest` and `l4` are in the counters, and an instant is milliseconds.
pub record Snapshot : Type 0 where
  pub world : Bytes
  pub key_fetch : Bytes
  pub tick : ℕ
  pub t : ℕ
  pub viewers : ℕ
  pub capacity : ℕ
  pub offered : ℕ
  pub reading : Reading
  pub ingest : Counters
  pub calls : ℕ → ℕ
  pub baseline : ℕ
  pub affected_backlog : ℕ
  pub scenario : Bytes
  pub phase : Bytes
  pub ends_at : Option ℕ
  pub recovery : Option ℕ
  pub drain : Option ℕ
  pub grid : Bytes
  pub events : List Event
  pub invariants : Map Light

-- `Delivered`.
abbrev pub hist_class : Card → ℕ → ℕ
hist_class c idx = if c.affected idx then 1 else 0

unfoldable pub note_delivered : TickSetup → ℕ → ℕ → Registry → Registry
unfolding record_sample
note_delivered u idx latency r = record r {
  delivered = suc r.delivered;
  hists = record_sample u.edges (hist_class r.card idx) latency r.hists;
}

-- `Report`.
unfoldable pub report : Bytes → Light → Registry → Registry
unfolding insert
report id v r = record r { verdicts = insert id v r.verdicts }

abbrev pub set_key_fetch : Bytes → Registry → Registry
set_key_fetch mode r = record r { key_fetch = mode }

-- `ResetPeaks` and `Peaks`.
abbrev pub reset_peaks : Registry → Registry
reset_peaks r = record r { peak = some no_reading }

abbrev pub peaks : Registry → Reading
peaks r = elim r.peak [ none ↦ no_reading | some x ↦ x ]

-- `DeliveredPS`, as the sum that it divides by the window's seconds.
unfoldable pub delivered_sum : TickSetup → Registry → ℕ
unfolding sum_slots
delivered_sum u r = sum_slots r.del_ring u.p99_window

-- The sum of the targets' backlogs, and whether all of them are ACTIVE.
unfoldable pub affected_sum : (ℕ → ℕ) → List ℕ → ℕ
affected_sum backlog [] = 0
affected_sum backlog (i ∷ is) = backlog i + affected_sum backlog is

unfoldable pub all_active : (ℕ → ℕ) → List ℕ → Bool
all_active states [] = true
all_active states (i ∷ is) = states i == 0 && all_active states is

-- The counts by state, over the first `n` tenants.
unfoldable pub by_state : (ℕ → ℕ) → ℕ → ℕ → ℕ
by_state states zero s = 0
by_state states (suc n) s =
    let rest = by_state states n s in if ltb (states n) 4 && states n == s then suc rest else rest

-- A tenant's character in the grid: the digit of its state, four up when it is affected.
unfoldable pub grid_char : ℕ → Bool → ℕ
grid_char state affected = (48 + state + (if affected then 4 else 0)) % 256

unfoldable pub grid_from : (ℕ → ℕ) → (ℕ → Bool) → ℕ → ℕ → Bytes
unfolding grid_char
grid_from states affected i zero = []
grid_from states affected i (suc left) =
    grid_char (states i) (affected i) ∷ grid_from states affected (suc i) left

-- The counters that a tick swaps for zero; two of them are cumulative.
unfoldable pub swapped : Counters → Counters
swapped c = record {
  accepted = 0;
  rate_limited = 0;
  backlog_full = 0;
  overloaded = 0;
  key_unavailable = 0;
  key_revoked = 0;
  internal = 0;
  rej_within = 0;
  rej_over = 0;
  over_within = c.over_within;
  healthy_rej = c.healthy_rej;
}

-- The per-field maxima.
unfoldable pub raise_peak : Reading → Reading → Reading
raise_peak x pk = record {
  delivered = max pk.delivered x.delivered;
  kms_calls = max pk.kms_calls x.kms_calls;
  accepted = max pk.accepted x.accepted;
  healthy_p99 = max pk.healthy_p99 x.healthy_p99;
  affected_p99 = max pk.affected_p99 x.affected_p99;
  inflight = λ p. max (pk.inflight p) (x.inflight p);
  by_state = λ s. max (pk.by_state s) (x.by_state s);
  backlog = max pk.backlog x.backlog;
  provider_calls = λ p. max (pk.provider_calls p) (x.provider_calls p);
}

abbrev pub raised : Reading → Option Reading → Option Reading
raised x none = none
raised x (some pk) = some (raise_peak x pk)

-- What the tick makes of its counts and its sources: the headline numbers.
unfoldable pub reading_of : TickSetup → Sources → Registry → ℕ × ℕ → Reading
unfolding by_state
reading_of u x r p99s = record {
  delivered = r.delivered;
  kms_calls = r.trail.calls 0 + r.trail.calls 1 + r.trail.calls 2;
  accepted = r.counters.accepted;
  healthy_p99 = p99s.0;
  affected_p99 = p99s.1;
  inflight = x.inflight;
  by_state = by_state x.states u.setup.tenants;
  backlog = x.total;
  provider_calls = r.trail.provider_calls;
}

-- The card after a tick: the ring of the p99s, and the stamps.
unfoldable pub card_after : TickSetup → Sources → ℕ → Card → Card
unfolding keep_p99 stamp all_active affected_sum
card_after u x healthy c =
    stamp x.now (all_active x.states c.targets) (affected_sum x.backlog c.targets) u.drain_slack
      (keep_p99 healthy c)

abbrev shown : Bool → ℕ → Option ℕ
shown b n = if b then some n else none

-- The registry that a tick leaves.
unfoldable pub ticked : TickSetup → Sources → Reading → Hists → Registry → Registry
unfolding card_after swapped raise_peak flush_transitions
ticked u x now_read hists r = record {
  trail =
      flush_transitions u.setup x.now (record r.trail { calls = λ c. 0; provider_calls = λ p. 0 });
  counters = swapped r.counters;
  delivered = 0;
  hists = hists;
  card = card_after u x now_read.healthy_p99 r.card;
  ticks = suc r.ticks;
  key_fetch = r.key_fetch;
  del_ring = set_at r.del_head r.delivered r.del_ring;
  del_head = (r.del_head + 1) % u.p99_window;
  last = now_read;
  peak = raised now_read r.peak;
  verdicts = r.verdicts;
}

-- The snapshot, from the registry before and after the tick.
unfoldable pub snapshot_of : TickSetup → Sources → Reading → Registry → Registry → Snapshot
unfolding grid_from affected_sum events
snapshot_of u x now_read r r' = record {
  world = u.world;
  key_fetch = r.key_fetch;
  tick = r'.ticks;
  t = x.now / 1_000_000;
  viewers = x.viewers;
  capacity = u.capacity;
  offered = x.offered;
  reading = now_read;
  ingest = r.counters;
  calls = r.trail.calls;
  baseline = r.card.baseline;
  affected_backlog = affected_sum x.backlog r.card.targets;
  scenario = r'.card.name;
  phase = r'.card.phase;
  ends_at =
      shown (not (is_empty r'.card.name) && is_set r'.card.ends_at) (r'.card.ends_at / 1_000_000);
  recovery =
      shown (not (is_empty r'.card.name) && is_set r'.card.recovered_at)
        (r'.card.recovered_at - r'.card.cleared_at);
  drain =
      shown (not (is_empty r'.card.name) && is_set r'.card.drained_at)
        (r'.card.drained_at - r'.card.cleared_at);
  grid = grid_from x.states r.card.affected 0 u.setup.tenants;
  events = events u.snapshot_events r'.trail;
  invariants = r.verdicts;
}

-- `tick`, when nothing else runs between its sections and the snapshot can be encoded.
unfoldable pub tick_registry : TickSetup → Sources → Registry → Snapshot × Registry
unfolding roll reading_of ticked snapshot_of
tick_registry u x r =
    let rolled = roll u.edges r.hists in
    let now_read = reading_of u x r rolled.0 in
    let r' = ticked u x now_read rolled.1 r in (snapshot_of u x now_read r r', r')
