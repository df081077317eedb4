-- ===== src/World/Ingest.antt =====
-- internal/world/ingest.go: an event from the front door to the store. The event's tenant is the
-- one whose record the core's run is about. Other goroutines come between on that tenant; store and
-- counters are those of an event with no other event between its sections.
pub mod Settles
pub mod Books
pub mod Lateness
pub mod Shares
use cmek.Base.{
  ℕ, ◌+◌, ◌/◌, Bytes, codes, List, [], ◌∷◌, Map, lookup, Option, none, some, Bool, true, false,
}
use cmek.Core.Types.{Config, Envelope, Handle, Refusal, Result}
use cmek.Core.Envelope.{Aead, seal}
use cmek.Core.Run.{M, ◌>>=◌, ◌>>◌, return, clock}
use cmek.Core.Manager.{encrypt_key}
use cmek.Admit.{Limits, Load, Rejection, admit}
use cmek.Queue.Store.{Store, Done, next_id, insert_message}
use cmek.Queue.Ledger.{Ledger, backlog_of}
use cmek.Metrics.Counters.{Counters, note_ingest}

-- The errors that `IngestID` returns, by the sentinel that `errors.Is` finds in them.
pub data IngestError : Type 0 where
  unknown_tenant : IngestError
  rejected : Rejection → IngestError
  refused : Refusal → IngestError
  not_inserted : IngestError

-- `RetryAfter` of params.go.
pub record RetryAfter : Type 0 where
  pub rate_limited : ℕ
  pub backlog_full : ℕ
  pub overloaded : ℕ
  pub key_unavailable : ℕ

-- The HTTP status, the reason and the Retry-After seconds.
pub record HttpReply : Type 0 where
  pub status : ℕ
  pub reason : Bytes
  pub retry_after : ℕ

abbrev reply : ℕ → Bytes → ℕ → HttpReply
reply status reason retry = record { status = status; reason = reason; retry_after = retry }

unfoldable pub outcome : Option IngestError → RetryAfter → HttpReply
outcome none ra = reply 202 [] 0
outcome (some IngestError.unknown_tenant) ra = reply 404 (codes "unknown_tenant") 0
outcome (some (IngestError.rejected Rejection.overloaded)) ra =
    reply 503 (codes "overloaded") ra.overloaded
outcome (some (IngestError.rejected Rejection.rate_limited)) ra =
    reply 429 (codes "rate_limited") ra.rate_limited
outcome (some (IngestError.rejected Rejection.backlog_full)) ra =
    reply 429 (codes "backlog_full") ra.backlog_full
outcome (some (IngestError.refused Refusal.key_revoked)) ra = reply 403 (codes "key_revoked") 0
outcome (some (IngestError.refused Refusal.key_unavailable)) ra =
    reply 503 (codes "key_unavailable") ra.key_unavailable
outcome (some (IngestError.refused Refusal.lease_expired)) ra =
    reply 503 (codes "key_unavailable") ra.key_unavailable
outcome (some _) ra = reply 500 (codes "internal") 0

abbrev no_retry : RetryAfter
no_retry = record { rate_limited = 0; backlog_full = 0; overloaded = 0; key_unavailable = 0 }

unfoldable pub reason_for : Option IngestError → Bytes
unfolding outcome
reason_for err = elim (outcome err no_retry).reason [ [] ↦ codes "accepted" | b ∷ bs ↦ b ∷ bs ]

-- What an event is met with: the index of the tenants, the gate and the limiter's answer, the AEAD
-- and its draw, the affected set, and whether the database fails the insert.
pub record Gateway : Type 0 where
  pub index : Map ℕ
  pub limits : Limits
  pub granted : Bool
  pub aead : Aead
  pub iv : ℕ
  pub affected : ℕ → Bool
  pub fault : Bool

-- What the front door changes besides the core.
pub record Front : Type 0 where
  pub store : Store
  pub counters : Counters

pub data IngestResult : Type 0 where
  accepted : ℕ → IngestResult
  failed : IngestError → IngestResult

-- The store as the gate's `Backlog`.
unfoldable pub load_of : Store → Load
unfolding backlog_of
load_of s = record {
  backlog = backlog_of s.ledger;
  total = s.ledger.total;
  backlogged = s.ledger.backlogged;
}

-- `w.metrics.Ingest`.
unfoldable pub note_outcome : Gateway → ℕ → Bool → Bytes → Front → Front
unfolding note_ingest
note_outcome g i within reason f = record f {
  counters = note_ingest g.affected f.store.tenants i reason within f.counters;
}

-- `reject`, without its log line.
unfoldable pub reject : Gateway → ℕ → Bool → IngestError → Front → IngestResult × Front
unfolding note_outcome reason_for
reject g i within err f =
    (IngestResult.failed err, note_outcome g i within (reason_for (some err)) f)

unfoldable pub after_insert :
    Gateway → ℕ → Bool → ℕ → Front → Done (Unit {0}) × Store → IngestResult × Front
unfolding reject note_outcome
after_insert g i within id f (Done.done u, s) =
    (IngestResult.accepted id, note_outcome g i within (codes "accepted") (record f { store = s }))
after_insert g i within id f (Done.failed, s) =
    reject g i within IngestError.not_inserted (record f { store = s })

-- The part of `IngestID` behind `Seal`. The store reads the clock for itself, in milliseconds.
unfoldable pub after_seal :
    Gateway → ℕ → Bool → ℕ → Front → Result Envelope → M (IngestResult × Front)
unfolding after_insert insert_message clock return reject
after_seal g i within id f (Result.ok env) = do
  stamp ← clock
  return
      (after_insert g i within id f (insert_message g.fault (stamp / 1_000_000) i id env f.store))
after_seal g i within id f (Result.err why) = return (reject g i within (IngestError.refused why) f)

-- The event's message once its id is given out.
unfoldable pub send :
    Gateway → Bytes → Bytes → ℕ → Bool → Handle → Front → ℕ × Store → M (IngestResult × Front)
unfolding after_seal seal clock
send g tenant text i within h f (id, s) = do
  now ← clock
  after_seal g i within id (record f { store = s }) (seal g.aead g.iv h now tenant id text)

unfoldable pub after_key :
    Gateway → Bytes → Bytes → ℕ → Bool → Front → Result Handle → M (IngestResult × Front)
unfolding send next_id return reject
after_key g tenant text i within f (Result.err why) =
    return (reject g i within (IngestError.refused why) f)
after_key g tenant text i within f (Result.ok h) = send g tenant text i within h f (next_id f.store)

unfoldable pub after_admit :
    Config
    → Gateway
    → Bytes
    → Bytes
    → ℕ
    → Front
    → Bool × Option Rejection
    → M (IngestResult × Front)
unfolding after_key encrypt_key return reject
after_admit c g tenant text i f (within, some why) =
    return (reject g i within (IngestError.rejected why) f)
after_admit c g tenant text i f (within, none) = do
  got ← encrypt_key c
  after_key g tenant text i within f got.0

-- `IngestID`.
unfoldable pub ingest_id : Config → Gateway → Bytes → Bytes → Front → M (IngestResult × Front)
unfolding lookup after_admit admit load_of return
ingest_id c g tenant text f = elim (lookup tenant g.index) [
  | none ↦ return (IngestResult.failed IngestError.unknown_tenant, f)
  | some i ↦ after_admit c g tenant text i f (admit g.limits (load_of f.store) g.granted i)
]
