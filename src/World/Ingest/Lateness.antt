-- ===== src/World/Ingest/Lateness.antt =====
-- The core's promise at the front door: no event is accepted after the revocation bound.
use cmek.Base.{ℕ, ◌+◌, ◌≤◌, ◌≡◌, refl, arith, Bytes, lookup, Option, none, some, Bool, true, false}
use cmek.Core.Types.{Config, Handle, Refusal, Result}
use cmek.Core.Envelope.{seal}
use cmek.Core.Bound.{Inv}
use cmek.Core.Run.{Env, St, ask, clock, return}
use cmek.Core.Renewal.{IsFaithful}
use cmek.Core.Handles.{GoodResult}
use cmek.Core.Encrypt.{encrypt_key-Keeps}
use cmek.Core.Manager.{encrypt_key}
use cmek.Admit.{Rejection, admit}
use cmek.Queue.Workers.Lateness.{IsLate}
use cmek.World.Ingest.{
  Gateway, Front, IngestResult, load_of, reject, after_seal, send, after_key, after_admit,
  ingest_id,
}

abbrev pub is_accepted : IngestResult → Bool
is_accepted (IngestResult.accepted id) = true
is_accepted (IngestResult.failed err) = false

seal-late :
    (g : Gateway) (h : Handle) (now id : ℕ) (tenant text : Bytes)
    → h.valid_until ≤ now
    → seal g.aead g.iv h now tenant id text ≡ Result.err Refusal.lease_expired
unfolding seal
seal-late g h now id tenant text le = ground arith

module _ (c : Config) (r : ℕ) (e : Env) (g : Gateway) (late : IsLate c r e) where
  after_key-late :
      (tenant text : Bytes) (i : ℕ) (within : Bool) (f : Front) (got : Result Handle) (s : St)
      → GoodResult c (some r) got
      → is_accepted (after_key g tenant text i within f got e s).0.0 ≡ false
  unfolding after_key send clock ask return reject after_seal
  after_key-late tenant text i within f (Result.ok h) s l =
      rw
        (seal-late g h (e.now s.at) (f.store.last_id + 1) tenant text (omega (arith, l, late s.at)))
        refl
  after_key-late tenant text i within f (Result.err why) s l = refl

  after_admit-late :
      (tenant text : Bytes) (i : ℕ) (within : Bool) (f : Front) (why : Option Rejection) (s : St)
      → IsFaithful c (some r) e
      → Inv c (some r) s.tenant
      → is_accepted (after_admit c g tenant text i f (within, why) e s).0.0 ≡ false
  unfolding after_admit return reject
  after_admit-late tenant text i within f (some why) s k v = refl
  after_admit-late tenant text i within f none s k v =
      after_key-late tenant text i within f (encrypt_key c e s).0.0 (encrypt_key c e s).1
        ((encrypt_key-Keeps c (some r) e k).run s v).1

-- No event is accepted at the front door once a lease, less the early expiry, has passed since the
-- key service last answered a call with success, in any fetch mode and whatever the other
-- goroutines do, as long as they keep the tenant's invariant.
pub no_late_ingest :
    (c : Config) (r : ℕ) (e : Env) (g : Gateway) (tenant text : Bytes) (f : Front) (s : St)
    → IsFaithful c (some r) e
    → IsLate c r e
    → Inv c (some r) s.tenant
    → is_accepted (ingest_id c g tenant text f e s).0.0 ≡ false
unfolding ingest_id
no_late_ingest c r e g tenant text f s k late v = split (lookup tenant g.index) refl
  where
    split :
        (o : Option ℕ)
        → lookup tenant g.index ≡ o
        → is_accepted (ingest_id c g tenant text f e s).0.0 ≡ false
    split none h = rw (h, ingest_id, return) refl
    split (some i) h =
        let a = admit g.limits (load_of f.store) g.granted i in
        rw (h, ingest_id) (after_admit-late c r e g late tenant text i a.0 f a.1 s k v)
