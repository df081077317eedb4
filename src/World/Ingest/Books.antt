-- ===== src/World/Ingest/Books.antt =====
-- Every outcome of `IngestID` is counted once, under its reason.
use cmek.Base.{
  ℕ, ◌+◌, ◌≡◌, refl, ◌∙◌, arith, Bytes, codes, lookup, same, some, Bool, ◌==◌, if◌then◌else◌,
}
use cmek.Core.Types.{Config, Refusal}
use cmek.Core.Run.{Env, St}
use cmek.Admit.{Rejection, within_share}
use cmek.Metrics.Counters.{
  Counters, Reason, reason_index, bump, note_healthy, split_share, note_ingest,
}
use cmek.World.Ingest.{
  IngestError, Gateway, Front, IngestResult, outcome, reason_for, load_of, ingest_id,
}
use cmek.World.Ingest.Settles.{
  Event, IsStored, IsCheap, IsSettled, event_of, counters_after, ingest_id-IsSettled,
}

-- The seven counters of the outcomes.
abbrev pub tally_of : Reason → Counters → ℕ
tally_of Reason.accepted c = c.accepted
tally_of Reason.rate_limited c = c.rate_limited
tally_of Reason.backlog_full c = c.backlog_full
tally_of Reason.overloaded c = c.overloaded
tally_of Reason.key_unavailable c = c.key_unavailable
tally_of Reason.key_revoked c = c.key_revoked
tally_of Reason.internal c = c.internal

abbrev number_of : Reason → ℕ
number_of Reason.accepted = 0
number_of Reason.rate_limited = 1
number_of Reason.backlog_full = 2
number_of Reason.overloaded = 3
number_of Reason.key_unavailable = 4
number_of Reason.key_revoked = 5
number_of Reason.internal = 6

-- One counter has gone up by one, and no other has moved.
abbrev pub IsCounted : Reason → Counters → Counters → Type 0
IsCounted r c c' =
    (k : Reason) → tally_of k c' ≡ tally_of k c + (if number_of k == number_of r then 1 else 0)

-- The counter of an error.
abbrev pub reason_of : IngestError → Reason
reason_of (IngestError.rejected Rejection.rate_limited) = Reason.rate_limited
reason_of (IngestError.rejected Rejection.backlog_full) = Reason.backlog_full
reason_of (IngestError.rejected Rejection.overloaded) = Reason.overloaded
reason_of (IngestError.refused Refusal.key_revoked) = Reason.key_revoked
reason_of (IngestError.refused Refusal.key_unavailable) = Reason.key_unavailable
reason_of (IngestError.refused Refusal.lease_expired) = Reason.key_unavailable
reason_of _ = Reason.internal

bump-IsCounted : (r : Reason) (c : Counters) → IsCounted r c (bump r c)
unfolding bump
bump-IsCounted r c k = grind arith

healthy-same :
    (affected : ℕ → Bool) (n i : ℕ) (r k : Reason) (c : Counters)
    → tally_of k (note_healthy affected n i r c) ≡ tally_of k c
unfolding note_healthy
healthy-same affected n i r k c = grind arith

split-same :
    (within : Bool) (r k : Reason) (c : Counters)
    → tally_of k (split_share within r c) ≡ tally_of k c
unfolding split_share
split-same within r k c = grind arith

note_ingest-IsCounted :
    (affected : ℕ → Bool) (n i : ℕ) (reason : Bytes) (within : Bool) (c : Counters)
    → IsCounted (reason_index reason) c (note_ingest affected n i reason within c)
unfolding note_ingest
note_ingest-IsCounted affected n i reason within c k =
    let r = reason_index reason in
    split-same within r k (note_healthy affected n i r (bump r c))
    ∙ healthy-same affected n i r k (bump r c)
    ∙ bump-IsCounted r c k

reason_for-reason_of : (err : IngestError) → reason_index (reason_for (some err)) ≡ reason_of err
unfolding reason_index reason_for outcome same
reason_for-reason_of IngestError.unknown_tenant = refl
reason_for-reason_of (IngestError.rejected Rejection.rate_limited) = refl
reason_for-reason_of (IngestError.rejected Rejection.backlog_full) = refl
reason_for-reason_of (IngestError.rejected Rejection.overloaded) = refl
reason_for-reason_of (IngestError.refused Refusal.key_unavailable) = refl
reason_for-reason_of (IngestError.refused Refusal.key_revoked) = refl
reason_for-reason_of (IngestError.refused Refusal.lease_expired) = refl
reason_for-reason_of (IngestError.refused Refusal.dek_cold) = refl
reason_for-reason_of (IngestError.refused Refusal.poison) = refl
reason_for-reason_of (IngestError.refused (Refusal.other e)) = refl
reason_for-reason_of IngestError.not_inserted = refl

-- The books after an event. Accepted: it has the next id, its text is sealed under that id with the
-- key that EncryptKey gave and stands in the store, and one acceptance is counted. Failed: the rows
-- and the ledger are as they were, the counter of its reason goes up by one, and an event that the
-- gate rejects does not touch the core.
abbrev pub IsBooked : Gateway → Event → ℕ → Front → St → (IngestResult × Front) × St → Type 0
IsBooked g v i f s ((IngestResult.accepted id, f'), s') =
    (id ≡ f.store.last_id + 1)
    × IsCounted Reason.accepted f.counters f'.counters
    × IsStored g v i id f.store f'.store
IsBooked g v i f s ((IngestResult.failed err, f'), s') =
    (f'.store.rows ≡ f.store.rows)
    × (f'.store.ledger ≡ f.store.ledger)
    × IsCounted (reason_of err) f.counters f'.counters
    × IsCheap err s s'

counters_after-IsCounted :
    (g : Gateway) (i : ℕ) (within : Bool) (reason : Bytes) (f : Front) (r : Reason) (c : Counters)
    → c ≡ counters_after g i within reason f
    → reason_index reason ≡ r
    → IsCounted r f.counters c
counters_after-IsCounted g i within reason f r c e q =
    rw (e, ← q) (note_ingest-IsCounted g.affected f.store.tenants i reason within f.counters)

settled-IsBooked :
    (g : Gateway) (v : Event) (i : ℕ) (within : Bool) (f : Front) (s : St)
    → (r : (IngestResult × Front) × St) → IsSettled g v i within f s r
    → IsBooked g v i f s r
unfolding reason_index same
settled-IsBooked g v i within f s ((IngestResult.accepted id, f'), s') w = (
  w.0,
  counters_after-IsCounted g i within (codes "accepted") f Reason.accepted f'.counters w.1 refl,
  w.2,
)
settled-IsBooked g v i within f s ((IngestResult.failed err, f'), s') w = (
  w.0,
  w.1,
  counters_after-IsCounted g i within (reason_for (some err)) f (reason_of err) f'.counters w.2
      (reason_for-reason_of err),
  w.3,
)

-- However IngestID ends for a tenant of the population: an accepted event has the next id, its text
-- is sealed under that id with the key that EncryptKey gave and inserted, and the counter of accepted
-- events goes up by one; a failed one leaves the rows and the ledger as they were, and the counter of
-- its error's reason goes up by one; no other counter of outcomes moves; and the gate's rejection
-- does not touch the core.
pub ingest_id-IsBooked :
    (c : Config) (g : Gateway) (tenant text : Bytes) (f : Front) (e : Env) (s : St) (i : ℕ)
    → lookup tenant g.index ≡ some i
    → IsBooked g (event_of c tenant text e s) i f s (ingest_id c g tenant text f e s)
ingest_id-IsBooked c g tenant text f e s i h =
    settled-IsBooked g (event_of c tenant text e s) i (within_share g.limits (load_of f.store) i) f
      s (ingest_id c g tenant text f e s) (ingest_id-IsSettled c g tenant text f e s i h)
