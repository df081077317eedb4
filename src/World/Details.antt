-- ===== src/World/Details.antt =====
-- internal/world/world.go: the read models, and the bridges between the core and the metrics. A
-- time is milliseconds where the API publishes milliseconds, and otherwise nanoseconds.
use cmek.Base.{ℕ, ◌-◌, ◌/◌, Bytes, List, map, Option, none, some, Bool}
use cmek.Core.Types.{Tenant, state_text}
use cmek.Core.Sweep.{info}
use cmek.Queue.Ledger.{backlog_of}
use cmek.Queue.Store.{Store}
use cmek.Queue.Meter.{Meter, stats}
use cmek.Generator.{Generator, rate}
use cmek.Metrics.Trail.{Setup, AuditEntry, Trail, tenant_audit, tenant_calls_per_min}
use cmek.Metrics.Card.{Card}
use cmek.World.Switches.{Plant, Checked, provider_of, index_of}
use cmek.World.Wiring.{rank_of_index}

-- What the read models read: the clock, the core's records by grid index, and the other parts.
pub record Insight : Type 0 where
  pub plant : Plant
  pub now : ℕ
  pub cores : ℕ → Tenant
  pub store : Store
  pub meter : Meter
  pub generator : Generator
  pub setup : Setup
  pub trail : Trail
  pub card : Card
  pub ticks : ℕ
  pub started_at : ℕ
  pub viewers : ℕ
  pub number : ℕ

-- `AuditEntry` as the API publishes it.
pub record AuditLine : Type 0 where
  pub at : ℕ
  pub op : Bytes
  pub outcome : Bytes
  pub detail : Bytes
  pub latency : ℕ
  pub purged : ℕ

abbrev pub audit_line : AuditEntry → AuditLine
audit_line e = record {
  at = e.at;
  op = e.op;
  outcome = e.outcome;
  detail = e.detail;
  latency = e.latency;
  purged = e.purged;
}

-- `TenantDetail`.
pub record TenantDetail : Type 0 where
  pub id : Bytes
  pub provider : Bytes
  pub state : Bytes
  pub rank : ℕ
  pub lease_age_ms : ℕ
  pub lease_remaining_ms : ℕ
  pub next_probe_ms : ℕ
  pub backlog : ℕ
  pub ready : ℕ
  pub offered : ℕ
  pub calls_per_min : ℕ
  pub affected : Bool
  pub audit : List AuditLine

-- `Tenant` of a known tenant.
unfoldable pub detail_at : Insight → Bytes → ℕ → TenantDetail
unfolding info state_text provider_of backlog_of rate tenant_calls_per_min tenant_audit
detail_at w id i =
    let t = info w.now (w.cores i) in
    record {
      id = id;
      provider = provider_of w.plant i;
      state = state_text t.state;
      rank = rank_of_index w.plant i;
      lease_age_ms = t.lease_age / 1_000_000;
      lease_remaining_ms = t.lease_remaining / 1_000_000;
      next_probe_ms = t.next_probe_in / 1_000_000;
      backlog = backlog_of w.store.ledger i;
      ready = w.store.ledger.ready i;
      offered = rate w.generator i;
      calls_per_min = tenant_calls_per_min w.setup w.now (some i) w.trail;
      affected = w.card.affected i;
      audit = map audit_line (tenant_audit w.setup (some i) 10 w.trail);
    }

-- `Tenant`.
abbrev pub detail_found : Insight → Bytes → Option ℕ → Checked TenantDetail
detail_found w id none = Checked.unknown_tenant
detail_found w id (some i) = Checked.fine (detail_at w id i)

unfoldable pub tenant_detail : Insight → Bytes → Checked TenantDetail
unfolding detail_at
tenant_detail w id = detail_found w id (index_of w.plant id)

-- `HealthInfo` and `Health`.
pub record HealthInfo : Type 0 where
  pub world : ℕ
  pub ticks : ℕ
  pub uptime : ℕ
  pub viewers : ℕ
  pub insert_mean_us : ℕ
  pub insert_max_us : ℕ
  pub census_max_us : ℕ

unfoldable pub health_of : Insight → HealthInfo
unfolding stats
health_of w =
    let s = stats w.meter in
    record {
      world = w.number;
      ticks = w.ticks;
      uptime = w.now - w.started_at;
      viewers = w.viewers;
      insert_mean_us = s.mean_us;
      insert_max_us = s.max_us;
      census_max_us = s.census_max_us;
    }
