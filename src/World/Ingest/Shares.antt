-- ===== src/World/Ingest/Shares.antt =====
-- The gate's fairness in the counters: a tenant within its share is never shed for the global cap.
use cmek.Base.{
  ℕ, suc, ◌+◌, ◌/◌, ◌≡◌, refl, ap, arith, Bytes, codes, same, lookup, Option, none, some, Bool,
  true, false, not, ◌&&◌, ◌∙◌,
}
use cmek.Core.Types.{Config, Envelope, Handle, Refusal, Result}
use cmek.Core.Envelope.{seal}
use cmek.Core.Run.{Env, St, ask, clock, return}
use cmek.Core.Manager.{encrypt_key}
use cmek.Admit.{Rejection, admit, shed_over_share}
use cmek.Queue.Store.{Store, Done, next_id, insert_message}
use cmek.Metrics.Counters.{
  Counters, Reason, reason_index, bump, note_healthy, split_share, note_ingest,
}
use cmek.World.Ingest.{
  IngestError, Gateway, Front, IngestResult, outcome, reason_for, load_of, note_outcome, reject,
  after_insert, after_seal, send, after_key, after_admit, ingest_id,
}

abbrev is_overload : Reason → Bool
is_overload Reason.overloaded = true
is_overload _ = false

bump-over_within : (r : Reason) (n : Counters) → (bump r n).over_within ≡ n.over_within
unfolding bump
bump-over_within Reason.accepted n = refl
bump-over_within Reason.rate_limited n = refl
bump-over_within Reason.backlog_full n = refl
bump-over_within Reason.overloaded n = refl
bump-over_within Reason.key_unavailable n = refl
bump-over_within Reason.key_revoked n = refl
bump-over_within Reason.internal n = refl

split_share-over_within :
    (within : Bool) (r : Reason) (n : Counters)
    → (is_overload r && within) ≡ false
    → (split_share within r n).over_within ≡ n.over_within
unfolding split_share
split_share-over_within within r n h = ground arith

note_ingest-over_within :
    (affected : ℕ → Bool) (tenants i : ℕ) (reason : Bytes) (within : Bool) (n : Counters)
    → (is_overload (reason_index reason) && within) ≡ false
    → (note_ingest affected tenants i reason within n).over_within ≡ n.over_within
unfolding note_ingest note_healthy
note_ingest-over_within affected tenants i reason within n h =
    let r = reason_index reason in
    split_share-over_within within r (note_healthy affected tenants i r (bump r n)) h
    ∙ ground (arith, bump-over_within r n)

abbrev is_shed : IngestError → Bool
is_shed (IngestError.rejected Rejection.overloaded) = true
is_shed _ = false

reason_for-overload :
    (err : IngestError) → is_overload (reason_index (reason_for (some err))) ≡ is_shed err
unfolding reason_index reason_for outcome same
reason_for-overload IngestError.unknown_tenant = refl
reason_for-overload (IngestError.rejected Rejection.overloaded) = refl
reason_for-overload (IngestError.rejected Rejection.rate_limited) = refl
reason_for-overload (IngestError.rejected Rejection.backlog_full) = refl
reason_for-overload (IngestError.refused Refusal.key_unavailable) = refl
reason_for-overload (IngestError.refused Refusal.key_revoked) = refl
reason_for-overload (IngestError.refused Refusal.lease_expired) = refl
reason_for-overload (IngestError.refused Refusal.dek_cold) = refl
reason_for-overload (IngestError.refused Refusal.poison) = refl
reason_for-overload (IngestError.refused (Refusal.other x)) = refl
reason_for-overload IngestError.not_inserted = refl

module _ (g : Gateway) (i : ℕ) (within : Bool) where
  -- An end that sheds nothing within its share.
  abbrev IsFair : Front → IngestResult × Front → Type 0
  IsFair f (a, f') = f'.counters.over_within ≡ f.counters.over_within

  reject-IsFair :
      (err : IngestError) (f : Front)
      → (is_shed err && within) ≡ false
      → IsFair f (reject g i within err f)
  unfolding reject note_outcome
  reject-IsFair err f h =
      note_ingest-over_within g.affected f.store.tenants i (reason_for (some err)) within f.counters
        (rw (reason_for-overload err) h)

  after_insert-IsFair :
      (id : ℕ) (f : Front) (d : Done (Unit {0}) × Store) → IsFair f (after_insert g i within id f d)
  unfolding after_insert note_outcome reason_index same
  after_insert-IsFair id f (Done.done u, s) =
      note_ingest-over_within g.affected s.tenants i (codes "accepted") within f.counters refl
  after_insert-IsFair id f (Done.failed, s) =
      reject-IsFair IngestError.not_inserted (record f { store = s }) refl

  after_seal-IsFair :
      (id : ℕ) (f : Front) (r : Result Envelope) (e : Env) (s : St)
      → IsFair f (after_seal g i within id f r e s).0
  unfolding after_seal clock ask return
  after_seal-IsFair id f (Result.ok env) e s =
      after_insert-IsFair id f (insert_message g.fault (e.now s.at / 1_000_000) i id env f.store)
  after_seal-IsFair id f (Result.err why) e s = reject-IsFair (IngestError.refused why) f refl

  after_key-IsFair :
      (tenant text : Bytes) (f : Front) (r : Result Handle) (e : Env) (s : St)
      → IsFair f (after_key g tenant text i within f r e s).0
  unfolding after_key send next_id clock ask return
  after_key-IsFair tenant text f (Result.ok h) e s =
      after_seal-IsFair (f.store.last_id + 1)
        (record f { store = record f.store { last_id = f.store.last_id + 1 } })
        (seal g.aead g.iv h (e.now s.at) tenant (f.store.last_id + 1) text) e
        (record s { at = suc s.at })
  after_key-IsFair tenant text f (Result.err why) e s =
      reject-IsFair (IngestError.refused why) f refl

  after_admit-IsFair :
      (c : Config) (tenant text : Bytes) (f : Front) (why : Option Rejection) (e : Env) (s : St)
      → (why ≡ some Rejection.overloaded → within ≡ false)
      → IsFair f (after_admit c g tenant text i f (within, why) e s).0
  unfolding after_admit return
  after_admit-IsFair c tenant text f none e s h =
      after_key-IsFair tenant text f (encrypt_key c e s).0.0 e (encrypt_key c e s).1
  after_admit-IsFair c tenant text f (some Rejection.overloaded) e s h =
      reject-IsFair (IngestError.rejected Rejection.overloaded) f (rw (h refl) refl)
  after_admit-IsFair c tenant text f (some Rejection.rate_limited) e s h =
      reject-IsFair (IngestError.rejected Rejection.rate_limited) f refl
  after_admit-IsFair c tenant text f (some Rejection.backlog_full) e s h =
      reject-IsFair (IngestError.rejected Rejection.backlog_full) f refl

-- With fair share on, no event at the front door raises the count of overloaded rejections dealt to
-- tenants within their share, which the checker's L4 judges, whatever the core, the limiter and the
-- database answer.
pub never_shed_within :
    (c : Config) (g : Gateway) (tenant text : Bytes) (f : Front) (e : Env) (s : St)
    → g.limits.is_fair ≡ true
    → (ingest_id c g tenant text f e s).0.1.counters.over_within ≡ f.counters.over_within
unfolding ingest_id
never_shed_within c g tenant text f e s fair = split (lookup tenant g.index) refl
  where
    split :
        (o : Option ℕ)
        → lookup tenant g.index ≡ o
        → (ingest_id c g tenant text f e s).0.1.counters.over_within ≡ f.counters.over_within
    split none h = rw (h, ingest_id, return) refl
    split (some i) h =
        let a = admit g.limits (load_of f.store) g.granted i in
        let shed : a.1 ≡ some Rejection.overloaded → a.0 ≡ false =
          λ q. (shed_over_share g.limits (load_of f.store) g.granted i q).1 ∙ ap not fair in
        rw (h, ingest_id) (after_admit-IsFair g i a.0 c tenant text f a.1 e s shed)
