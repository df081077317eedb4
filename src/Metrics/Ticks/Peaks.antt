-- ===== src/Metrics/Ticks/Peaks.antt =====
-- What the peak readings are.
use cmek.Base.{ℕ, ◌≡◌, refl, ap, ◌∙◌, arith, max, List, [], ◌∷◌, some}
use cmek.Metrics.Ticks.{
  TickSetup, Sources, Reading, Registry, Snapshot, note_delivered, raise_peak, raised, peaks,
  no_reading, reset_peaks, ticked, snapshot_of, tick_registry,
}
use cmek.Metrics.Ticks.Conserved.{Move, ingest, note_audit, run_moves}

-- A number of a reading.
pub data Field : Type 0 where
  delivered kms_calls accepted healthy_p99 affected_p99 backlog : Field
  tenants_in : (state : ℕ) → Field
  inflight : (provider : ℕ) → Field
  provider_calls : (provider : ℕ) → Field

abbrev pub field : Field → Reading → ℕ
field Field.delivered x = x.delivered
field Field.kms_calls x = x.kms_calls
field Field.accepted x = x.accepted
field Field.healthy_p99 x = x.healthy_p99
field Field.affected_p99 x = x.affected_p99
field Field.backlog x = x.backlog
field (Field.tenants_in s) x = x.by_state s
field (Field.inflight p) x = x.inflight p
field (Field.provider_calls p) x = x.provider_calls p

-- The highest that any snapshot shows.
abbrev pub highest : Field → List Snapshot → ℕ
highest k [] = 0
highest k (s ∷ ss) = max (field k s.reading) (highest k ss)

raise_peak-field :
    (k : Field) (x pk : Reading) → field k (raise_peak x pk) ≡ max (field k pk) (field k x)
unfolding raise_peak
raise_peak-field Field.delivered x pk = refl
raise_peak-field Field.kms_calls x pk = refl
raise_peak-field Field.accepted x pk = refl
raise_peak-field Field.healthy_p99 x pk = refl
raise_peak-field Field.affected_p99 x pk = refl
raise_peak-field Field.backlog x pk = refl
raise_peak-field (Field.tenants_in s) x pk = refl
raise_peak-field (Field.inflight p) x pk = refl
raise_peak-field (Field.provider_calls p) x pk = refl

tick-peak :
    (u : TickSetup) (x : Sources) (r : Registry) (pk : Reading)
    → r.peak ≡ some pk
    → (tick_registry u x r).1.peak ≡ some (raise_peak (tick_registry u x r).0.reading pk)
unfolding tick_registry ticked snapshot_of
tick-peak u x r pk e = ap (raised (tick_registry u x r).0.reading) e

peak-highest :
    (u : TickSetup) (k : Field) (ms : List Move) (r : Registry) (pk : Reading)
    → r.peak ≡ some pk
    → let end = run_moves u ms r in field k (peaks end.1) ≡ max (field k pk) (highest k end.0)
unfolding run_moves ingest note_delivered note_audit
peak-highest u k [] r pk e = rw e (omega arith)
peak-highest u k (Move.ingests i reason within ∷ ms) r pk e =
    peak-highest u k ms (ingest u i reason within r) pk e
peak-highest u k (Move.delivers i latency ∷ ms) r pk e =
    peak-highest u k ms (note_delivered u i latency r) pk e
peak-highest u k (Move.audits a ∷ ms) r pk e = peak-highest u k ms (note_audit u a r) pk e
peak-highest u k (Move.ticks x ∷ ms) r pk e =
    let t = tick_registry u x r in
    let rest = peak-highest u k ms t.1 (raise_peak t.0.reading pk) (tick-peak u x r pk e) in
    omega (arith, rest, raise_peak-field k t.0.reading pk)

-- A peak reading is the maximum: after ResetPeaks and any history of outcomes, deliveries, audits
-- and ticks, each number of Peaks is the highest that a snapshot of the history shows, and zero
-- without a tick.
pub peaks_exact :
    (u : TickSetup) (k : Field) (ms : List Move) (r : Registry)
    → let end = run_moves u ms (reset_peaks r) in field k (peaks end.1) ≡ highest k end.0
peaks_exact u k ms r =
    peak-highest u k ms (reset_peaks r) no_reading refl
    ∙ zero-highest k (run_moves u ms (reset_peaks r)).0
  where
    zero-highest :
        (k : Field) (ss : List Snapshot) → max (field k no_reading) (highest k ss) ≡ highest k ss
    zero-highest Field.delivered ss = omega arith
    zero-highest Field.kms_calls ss = omega arith
    zero-highest Field.accepted ss = omega arith
    zero-highest Field.healthy_p99 ss = omega arith
    zero-highest Field.affected_p99 ss = omega arith
    zero-highest Field.backlog ss = omega arith
    zero-highest (Field.tenants_in s) ss = omega arith
    zero-highest (Field.inflight p) ss = omega arith
    zero-highest (Field.provider_calls p) ss = omega arith
