-- ===== src/Metrics/Trail.antt =====
-- internal/metrics/registry.go: the audit entries, the timeline and the buffered transitions, all
-- of them under the registry's mutex. A timeline's text is the pieces that Sprintf puts together.
pub mod Newest
pub mod Flush
use cmek.Base.{
  set_at, ℕ, zero, suc, ◌+◌, ◌-◌, ◌*◌, ◌/◌, ◌%◌, Bytes, codes, same, List, [], ◌∷◌, ◌++◌, map,
  count, Option, none, some, Bool, true, false, ltb, leb, not, ◌==◌, ◌&&◌, ◌||◌, if◌then◌else◌,
}
use cmek.Metrics.Recent.{Recent, empty_ring, note, newest}

-- What `New` is given; it raises every size of zero to its default, so `audit_ring` and
-- `timeline_ring` stand for positive numbers.
pub record Setup : Type 0 where
  pub tenants : ℕ
  pub providers : ℕ
  pub audit_ring : ℕ
  pub timeline_ring : ℕ
  pub aggregate_min : ℕ

-- The metrics' copy of an audit entry; an index of -1 is none.
pub record AuditEntry : Type 0 where
  pub at : ℕ
  pub idx : Option ℕ
  pub op : Bytes
  pub outcome : Bytes
  pub detail : Bytes
  pub class : ℕ
  pub from : ℕ
  pub to : ℕ
  pub latency : ℕ
  pub purged : ℕ

abbrev pub no_entry : AuditEntry
no_entry = record {
  at = 0;
  idx = some 0;
  op = [];
  outcome = [];
  detail = [];
  class = 0;
  from = 0;
  to = 0;
  latency = 0;
  purged = 0;
}

-- The texts of the timeline.
pub data Line : Type 0 where
  free : Bytes → Line
  revoked : (idx purged : ℕ) → Line
  moved : (idx from to : ℕ) → Bytes → Line
  many : (n prov from to : ℕ) → Line
  rode : (prov up down : ℕ) → Line

pub record Event : Type 0 where
  pub seq : ℕ
  pub at : ℕ
  pub line : Line

-- The first REVOKED transition of an episode.
pub record Detection : Type 0 where
  pub at : ℕ
  pub purged : ℕ
  pub is_open : Bool
  pub ok : Bool

pub record Ride : Type 0 where
  pub up : ℕ
  pub down : ℕ

pub record Trail : Type 0 where
  pub timeline : Recent Event
  pub tl_seq : ℕ
  pub audits : ℕ → Recent AuditEntry
  pub detected : ℕ → Detection
  pub pending : List (ℕ × AuditEntry)
  pub rides : ℕ → Ride
  pub rides_flushed : ℕ
  pub calls : ℕ → ℕ
  pub provider_calls : ℕ → ℕ

-- `New`. A tenant's ring is made at its first entry; until then it reads as an empty one.
unfoldable pub new_trail : Setup → Trail
unfolding empty_ring
new_trail u = record {
  timeline = empty_ring (record { seq = 0; at = 0; line = Line.free [] }) u.timeline_ring;
  tl_seq = 0;
  audits = λ i. empty_ring no_entry u.audit_ring;
  detected = λ i. record { at = 0; purged = 0; is_open = false; ok = false };
  pending = [];
  rides = λ p. record { up = 0; down = 0 };
  rides_flushed = 0;
  calls = λ k. 0;
  provider_calls = λ p. 0;
}

-- The provider of a grid index.
abbrev pub provider : Setup → ℕ → ℕ
provider u idx = if u.providers == 0 || u.tenants == 0 then 0 else idx * u.providers / u.tenants

unfoldable pub post : ℕ → Line → Trail → Trail
unfolding note
post at line t = record t {
  tl_seq = t.tl_seq + 1;
  timeline = note (record { seq = t.tl_seq + 1; at = at / 1_000_000; line = line }) t.timeline;
}

unfoldable pub events : ℕ → Trail → List Event
unfolding newest
events n t = newest n t.timeline

-- The calls of the key service, by class and by provider.
unfoldable pub count_call : Setup → ℕ → AuditEntry → Trail → Trail
count_call u i e t =
    if same e.op (codes "unwrap") || same e.op (codes "generate")
    then record t {
      calls = if ltb e.class 3 then set_at e.class (t.calls e.class + 1) t.calls else t.calls;
      provider_calls = set_at (provider u i) (t.provider_calls (provider u i) + 1) t.provider_calls;
    }
    else t

unfoldable pub detect : AuditEntry → Detection → Detection
detect e d =
    if e.to == 3 && not d.is_open
    then record { at = e.at; purged = e.purged; is_open = true; ok = true }
    else if e.from == 3 && not (e.to == 3)
    then record d { is_open = false }
    else d

-- A state change: the detection, then a line at once or something to be flushed.
unfoldable pub tell_change : Setup → ℕ → AuditEntry → Trail → Trail
unfolding detect post
tell_change u i e t =
    let t = record t { detected = set_at i (detect e (t.detected i)) t.detected } in
    let p = provider u i in
    let r = t.rides p in
    if e.to == 3
    then post e.at (Line.revoked i e.purged) t
    else if e.from == 0 && e.to == 1
    then record t { rides = set_at p (record r { up = r.up + 1 }) t.rides }
    else if e.from == 1 && e.to == 0
    then record t { rides = set_at p (record r { down = r.down + 1 }) t.rides }
    else record t { pending = t.pending ++ (i, e) ∷ [] }

abbrev pub keep_entry : ℕ → AuditEntry → Trail → Trail
keep_entry i e t = record t { audits = set_at i (note e (t.audits i)) t.audits }

-- `Audit` for an index of the population.
unfoldable pub audit_known : Setup → ℕ → AuditEntry → Trail → Trail
unfolding count_call tell_change note
audit_known u i e t =
    let counted = count_call u i e t in
    keep_entry i e (if same e.op (codes "state") then tell_change u i e counted else counted)

unfoldable pub audit_entry : Setup → AuditEntry → Trail → Trail
unfolding audit_known
audit_entry u e t = elim e.idx [
  | none ↦ t
  | some i ↦ if ltb i u.tenants then audit_known u i e t else t
]

unfoldable pub tenant_audit : Setup → Option ℕ → ℕ → Trail → List AuditEntry
unfolding newest
tenant_audit u none n t = []
tenant_audit u (some i) n t = if ltb i u.tenants then newest n (t.audits i) else []

-- `DetectedRevokedAt`.
unfoldable pub detected_revoked_at : Setup → Option ℕ → Trail → ℕ × ℕ × Bool
detected_revoked_at u none t = (0, 0, false)
detected_revoked_at u (some i) t =
    let d = t.detected i in if ltb i u.tenants then (d.at, d.purged, d.ok) else (0, 0, false)

abbrev pub is_recent_call : ℕ → AuditEntry → Bool
is_recent_call cut e = (same e.op (codes "unwrap") || same e.op (codes "generate")) && ltb cut e.at

-- The loop of `TenantCallsPerMin` over the first `n` slots of the ring.
unfoldable pub calls_among : ℕ → Recent AuditEntry → ℕ → ℕ
calls_among cut r zero = 0
calls_among cut r (suc n) =
    let rest = calls_among cut r n in if is_recent_call cut (r.slots n) then suc rest else rest

-- `TenantCallsPerMin`, at an instant past the first minute.
unfoldable pub tenant_calls_per_min : Setup → ℕ → Option ℕ → Trail → ℕ
unfolding calls_among
tenant_calls_per_min u now none t = 0
tenant_calls_per_min u now (some i) t =
    if ltb i u.tenants then calls_among (now - 60_000_000_000) (t.audits i) (t.audits i).used else 0
