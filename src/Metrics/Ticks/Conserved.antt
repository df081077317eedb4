-- ===== src/Metrics/Ticks/Conserved.antt =====
-- What the snapshots tell of what was counted.
use cmek.Base.{
  ℕ, suc, ◌+◌, ◌≡◌, refl, arith, Bytes, List, [], ◌∷◌, Bool, true, false, ltb, not, ◌&&◌,
  if◌then◌else◌,
}
use cmek.Metrics.Trail.{AuditEntry, audit_entry}
use cmek.Metrics.Counters.{
  Reason, Counters, reason_index, bump, is_accepted, note_healthy, split_share, note_ingest,
}
use cmek.Metrics.Ticks.{
  TickSetup, Sources, Registry, Snapshot, swapped, note_delivered, ticked, snapshot_of,
  tick_registry, reading_of,
}

-- What is done to the registry, besides the scenarios' calls.
pub data Move : Type 0 where
  ingests : (idx : ℕ) → (reason : Bytes) → (within : Bool) → Move
  delivers : (idx latency : ℕ) → Move
  audits : AuditEntry → Move
  ticks : Sources → Move

-- `Ingest` on the registry.
unfoldable pub ingest : TickSetup → ℕ → Bytes → Bool → Registry → Registry
unfolding note_ingest
ingest u idx reason within r = record r {
  counters = note_ingest r.card.affected u.setup.tenants idx reason within r.counters;
}

-- `Audit` on the registry.
unfoldable pub note_audit : TickSetup → AuditEntry → Registry → Registry
unfolding audit_entry
note_audit u e r = record r { trail = audit_entry u.setup e r.trail }

-- The snapshots of a history, and the registry after it.
unfoldable pub run_moves : TickSetup → List Move → Registry → List Snapshot × Registry
unfolding ingest note_delivered note_audit tick_registry
run_moves u [] r = ([], r)
run_moves u (Move.ingests i reason within ∷ ms) r = run_moves u ms (ingest u i reason within r)
run_moves u (Move.delivers i latency ∷ ms) r = run_moves u ms (note_delivered u i latency r)
run_moves u (Move.audits e ∷ ms) r = run_moves u ms (note_audit u e r)
run_moves u (Move.ticks x ∷ ms) r =
    let t = tick_registry u x r in let rest = run_moves u ms t.1 in (t.0 ∷ rest.0, rest.1)

-- The number of outcomes in the counters, and of accepted ones.
abbrev pub outcomes : Counters → ℕ
outcomes c =
    c.accepted
    + (c.rate_limited
        + (c.backlog_full + (c.overloaded + (c.key_unavailable + (c.key_revoked + c.internal)))))

abbrev pub Tally : Type 0
Tally = ℕ × ℕ × ℕ

-- Outcomes, accepted ones and deliveries of a history.
abbrev pub plus : Tally → Tally → Tally
plus a b = (a.0 + b.0, a.1 + b.1, a.2 + b.2)

abbrev pub is_one : Bytes → ℕ
is_one reason = if is_accepted (reason_index reason) then 1 else 0

abbrev pub done_by : Move → Tally
done_by (Move.ingests i reason within) = (1, is_one reason, 0)
done_by (Move.delivers i latency) = (0, 0, 1)
done_by _ = (0, 0, 0)

abbrev pub all_done : List Move → Tally
all_done [] = (0, 0, 0)
all_done (m ∷ ms) = plus (done_by m) (all_done ms)

abbrev pub told_in : Snapshot → Tally
told_in s = (outcomes s.ingest, s.reading.accepted, s.reading.delivered)

abbrev pub all_told : List Snapshot → Tally
all_told [] = (0, 0, 0)
all_told (s ∷ ss) = plus (told_in s) (all_told ss)

-- What is still to be told.
abbrev pub pending : Registry → Tally
pending r = (outcomes r.counters, r.counters.accepted, r.delivered)

-- Two tallies that make up a third.
abbrev pub Balances : Tally → Tally → Tally → Type 0
Balances a b c = (a.0 + b.0 ≡ c.0) × (a.1 + b.1 ≡ c.1) × (a.2 + b.2 ≡ c.2)

abbrev of_reason : Reason → ℕ
of_reason k = if is_accepted k then 1 else 0

bump-outcomes :
    (k : Reason) (c : Counters)
    → (outcomes (bump k c) ≡ outcomes c + 1) × ((bump k c).accepted ≡ c.accepted + of_reason k)
unfolding bump
bump-outcomes Reason.accepted c = (omega arith, omega arith)
bump-outcomes Reason.rate_limited c = (omega arith, omega arith)
bump-outcomes Reason.backlog_full c = (omega arith, omega arith)
bump-outcomes Reason.overloaded c = (omega arith, omega arith)
bump-outcomes Reason.key_unavailable c = (omega arith, omega arith)
bump-outcomes Reason.key_revoked c = (omega arith, omega arith)
bump-outcomes Reason.internal c = (omega arith, omega arith)

-- The other two steps of an ingest move neither.
healthy-outcomes :
    (f : ℕ → Bool) (tenants i : ℕ) (k : Reason) (c : Counters)
    → (outcomes (note_healthy f tenants i k c) ≡ outcomes c)
      × ((note_healthy f tenants i k c).accepted ≡ c.accepted)
unfolding note_healthy
healthy-outcomes f tenants i k c = go (not (is_accepted k) && ltb i tenants && not (f i))
  where
    go :
        (b : Bool)
        → let d : Counters = if b then record c { healthy_rej = suc c.healthy_rej } else c in
          (outcomes d ≡ outcomes c) × (d.accepted ≡ c.accepted)
    go true = (refl, refl)
    go false = (refl, refl)

split-outcomes :
    (within : Bool) (k : Reason) (c : Counters)
    → (outcomes (split_share within k c) ≡ outcomes c)
      × ((split_share within k c).accepted ≡ c.accepted)
unfolding split_share
split-outcomes within Reason.accepted c = (refl, refl)
split-outcomes true Reason.rate_limited c = (refl, refl)
split-outcomes false Reason.rate_limited c = (refl, refl)
split-outcomes true Reason.backlog_full c = (refl, refl)
split-outcomes false Reason.backlog_full c = (refl, refl)
split-outcomes true Reason.overloaded c = (refl, refl)
split-outcomes false Reason.overloaded c = (refl, refl)
split-outcomes within Reason.key_unavailable c = (refl, refl)
split-outcomes within Reason.key_revoked c = (refl, refl)
split-outcomes within Reason.internal c = (refl, refl)

ingest-pending :
    (u : TickSetup) (i : ℕ) (reason : Bytes) (within : Bool) (r : Registry)
    → let r' = ingest u i reason within r in
      (outcomes r'.counters ≡ 1 + outcomes r.counters)
      × (r'.counters.accepted ≡ is_one reason + r.counters.accepted)
      × (r'.delivered ≡ r.delivered)
unfolding ingest note_ingest
ingest-pending u i reason within r =
    let k = reason_index reason in
    let b = bump k r.counters in
    let h = note_healthy r.card.affected u.setup.tenants i k b in
    let x = split-outcomes within k h in
    let y = healthy-outcomes r.card.affected u.setup.tenants i k b in
    let z = bump-outcomes k r.counters in
    (omega (arith, x.0, y.0, z.0), omega (arith, x.1, y.1, z.1), refl)

-- A tick tells all that is pending.
tick-pending :
    (u : TickSetup) (x : Sources) (r : Registry)
    → let t = tick_registry u x r in
      Balances (pending r) (0, 0, 0) (told_in t.0) × Balances (0, 0, 0) (0, 0, 0) (pending t.1)
unfolding tick_registry reading_of ticked snapshot_of swapped
tick-pending u x r = ((omega arith, omega arith, omega arith), (refl, refl, refl))

-- What is counted is told: along any history, the outcomes, the accepted events and the deliveries
-- that the snapshots tell, with those still pending at the end, are those pending at the start and
-- those of the history, each counted once.
pub told_once :
    (u : TickSetup) (ms : List Move) (r : Registry)
    → let end = run_moves u ms r in
      Balances (all_told end.0) (pending end.1) (plus (all_done ms) (pending r))
unfolding run_moves note_delivered note_audit
told_once u [] r = (refl, refl, refl)
told_once u (Move.ingests i reason within ∷ ms) r =
    let rest = told_once u ms (ingest u i reason within r) in
    let e = ingest-pending u i reason within r in
    (omega (arith, rest.0, e.0), omega (arith, rest.1, e.1), omega (arith, rest.2, e.2))
told_once u (Move.delivers i latency ∷ ms) r =
    let rest = told_once u ms (note_delivered u i latency r) in
    (omega (arith, rest.0), omega (arith, rest.1), omega (arith, rest.2))
told_once u (Move.audits e ∷ ms) r =
    let rest = told_once u ms (note_audit u e r) in
    (omega (arith, rest.0), omega (arith, rest.1), omega (arith, rest.2))
told_once u (Move.ticks x ∷ ms) r =
    let rest = told_once u ms (tick_registry u x r).1 in
    let t = tick-pending u x r in
    (
      omega (arith, rest.0, t.0.0, t.1.0),
      omega (arith, rest.1, t.0.1, t.1.1),
      omega (arith, rest.2, t.0.2, t.1.2),
    )
