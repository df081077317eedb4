-- ===== src/Examples.antt =====
-- The theorems at concrete inputs: the demo's lease parameters, one tenant, one key.
use cmek.Base.{
  ℕ, ◌+◌, ◌≡◌, ◌≢◌, refl, arith, inl, codes, List, [], ◌∷◌, ◌++◌, none, some, true, index,
  has_prefix, lookup, insert, same,
}
use cmek.Kms.Errors.{is, Code, KmsError, error_text, GoErr}
use cmek.Kms.Frame.{code_from_text, cause}
use cmek.Kms.Fake.{
  Fake, Wait, Answer, revoke, Tink, TinkResult, encrypt_with_context, decrypt_with_context,
}
use cmek.Kms.RoundTrip.{code_from_text-error_text}
use cmek.Kms.Truth.{IsExact, revoked_round_trip}
use cmek.Core.Lease.{usable, renew_lease, soft_due}
use cmek.Core.Types.{
  State, Class, Config, Dek, Fetch, Tenant, Outcome, Op, Handle, Refusal, Result, Envelope,
  new_tenant,
}
use cmek.Core.Tenant.{hot, direct, active_dek, update_dek, exhausted}
use cmek.Core.Apply.{apply, apply_ok, apply_deny, touch}
use cmek.Core.Run.{Env, St}
use cmek.Core.Envelope.{Aead, seal, open_envelope}
use cmek.Core.Manager.{encrypt_key}
use cmek.Core.Sweep.{tick}
use cmek.Core.Bound.{Inv, IsAnswer, apply-Inv}
use cmek.Core.Renewal.{IsFaithful}
use cmek.Core.Sections.{tick-Inv, tick-lapsed_cold}
use cmek.Kms.Frame.{frame}
use cmek.Kms.First.{IsFirst, frame-IsFirst}
use cmek.Core.Denial.{Applied, applies, deny_lasts}
use cmek.Core.Revocation.{revocation_bound}
use cmek.Core.Schedule.{Turn, turns, turns-Inv, new_tenant-Inv}
use cmek.Core.Sealing.{IsAead, open-seal}

-- The values of `Demo`, in nanoseconds.
abbrev pub demo : Config
demo = record {
  lease = 30_000_000_000;
  soft_ttl = 15_000_000_000;
  early_expiry = 1_000_000_000;
  kms_timeout = 500_000_000;
  backoff_min = 500_000_000;
  backoff_max = 8_000_000_000;
  revoked_reprobe = 5_000_000_000;
  dek_max_age = 600_000_000_000;
  sweep_interval = 250_000_000;
  backoff_jitter = 500_000;
  dek_max_messages = 10000;
  provider_inflight = 32;
  tenant_inflight = 2;
  ingest_waiters = 4;
}

abbrev pub fresh : Tenant
fresh = new_tenant demo 7 (codes "t-0007") (codes "aws") (codes "kek-7")

abbrev first_dek : Dek
first_dek = record {
  id = codes "t-0007/1";
  wrapped = codes "w";
  kek_version = 1;
  prim = none;
  msgs = 0;
  created_at = 100;
  hot_since = 0;
}

-- A generate that was sent at 100 and answered at 200.
abbrev generated : Outcome
generated = record {
  sent_at = 100;
  class = Class.ok;
  err = none;
  prim = some 42;
  wrapped = codes "w";
  latency = 100;
}

abbrev pub warm_tenant : Tenant
warm_tenant = apply demo 200 0 Op.generate (some first_dek) generated fresh

abbrev timed_out : GoErr
timed_out = record { chain = []; typed = none; text = codes "context deadline exceeded" }

abbrev disabled : GoErr
disabled = record {
  chain = [];
  typed = some (record {
    code = Code.key_disabled;
    provider = codes "aws";
    msg = codes "kek-7 is disabled";
  });
  text = codes "kms aws: KeyDisabled: kek-7 is disabled";
}

abbrev failing : Class → GoErr → Outcome
failing k e = record {
  sent_at = 300;
  class = k;
  err = some e;
  prim = none;
  wrapped = [];
  latency = 50;
}

generated-IsAnswer : IsAnswer (some 150) generated
generated-IsAnswer = record {
  answered = λ h. omega arith;
  in_time = λ h. omega arith;
  classed = λ h b s. refl;
}

pub warm_tenant-Inv : Inv demo (some 150) warm_tenant
warm_tenant-Inv =
    apply-Inv demo (some 150) 200 0 Op.generate (some first_dek) generated fresh generated-IsAnswer
      refl (new_tenant-Inv demo (some 150) 7 (codes "t-0007") (codes "aws") (codes "kek-7"))

-- A key service that denies every call, while another goroutine sweeps in between.
abbrev pub revoked_world : Env
revoked_world = record {
  now = λ n. 1000 + n;
  draw = λ n. 0;
  slot = λ n. true;
  ctx_err = λ n. codes "context deadline exceeded";
  kms = λ n. record { err = some disabled; prim = none; wrapped = [] };
  put_dek = λ n. none;
  join = λ n. none;
  others = λ n t. (tick demo (1000 + n) t).1;
}

pub revoked_world-IsFaithful : IsFaithful demo (some 150) revoked_world
revoked_world-IsFaithful = record {
  ticking = λ n. omega arith;
  refused = λ n h. cc;
  joined = λ n j h. cc;
  rely = λ n t v. tick-Inv demo (some 150) (1000 + n) t v;
}

abbrev pub start : St
start = record { at = 0; tenant = warm_tenant }

abbrev pub given : Handle
given = record { dek_id = codes "t-0007/1"; valid_until = 29_000_000_100; prim = some 42 }

encrypt_gives : (encrypt_key demo revoked_world start).0.0 ≡ Result.ok given
unfolding encrypt_key apply new_tenant tick apply_ok direct active_dek lookup update_dek insert same
    touch usable renew_lease exhausted soft_due
encrypt_gives = refl

-- An AEAD that hides nothing.
abbrev pub clear : Aead
clear = record {
  encrypt = λ p iv text ad. TinkResult.bytes text;
  decrypt = λ p ct ad. TinkResult.bytes ct;
}

clear-IsAead : IsAead clear
clear-IsAead p iv text ad ct e = cc

abbrev sealed_one : Envelope
sealed_one = record { dek_id = codes "t-0007/1"; ciphertext = codes "hello" }

revocation_bound_example :
    (seal clear 0 given 29_000_000_150 (codes "t-0007") 5 (codes "hello")
      ≡ Result.err Refusal.lease_expired)
    × (open_envelope clear given 29_000_000_150 (codes "t-0007") 5 sealed_one
        ≡ Result.err Refusal.lease_expired)
revocation_bound_example =
    revocation_bound demo 150 revoked_world start given revoked_world-IsFaithful warm_tenant-Inv
      (inl encrypt_gives) clear 0 29_000_000_150 (codes "t-0007") 5 (codes "hello") sealed_one
      (omega arith)

abbrev busy_day : List Turn
busy_day =
    Turn.applies 200 0 Op.generate (some first_dek) generated
    ∷ Turn.enters_encrypt 250
    ∷ Turn.enters_decrypt (codes "t-0007/1") 260
    ∷ Turn.applies 300 0 Op.unwrap none (failing Class.transient timed_out)
    ∷ Turn.asks_hot 310
    ∷ Turn.applies 320 0 Op.unwrap none (failing Class.deny disabled)
    ∷ Turn.sweeps 330
    ∷ Turn.switches Fetch.naive 340
    ∷ []

failing-IsAnswer : (k : Class) (e : GoErr) → k ≢ Class.ok → IsAnswer (some 150) (failing k e)
failing-IsAnswer k e h = record {
  answered = λ b. omega arith;
  in_time = λ b. cc;
  classed = λ b s t. absurd (h b);
}

turns-Inv_example : Inv demo (some 150) (turns demo busy_day fresh)
turns-Inv_example =
    turns-Inv demo (some 150) busy_day fresh
      (
        (generated-IsAnswer, refl),
        (
          tt,
          (
            tt,
            (
              (failing-IsAnswer Class.transient timed_out (λ e. cc), tt),
              (tt, ((failing-IsAnswer Class.deny disabled (λ e. cc), tt), (tt, (tt, tt)))),
            ),
          ),
        ),
      )
      (new_tenant-Inv demo (some 150) 7 (codes "t-0007") (codes "aws") (codes "kek-7"))

abbrev denied : Tenant
denied = apply demo 300 0 Op.unwrap (some first_dek) (failing Class.deny disabled) warm_tenant

denied_time : denied.denied_at ≡ 300
unfolding apply is apply_deny apply_ok new_tenant
denied_time = refl

-- A success that was sent before the deny and a transient failure, applied after it.
abbrev after_deny : List Applied
after_deny =
    record { now = 400; draw = 0; op = Op.unwrap; dek = some first_dek; outcome = generated }
    ∷ record {
      now = 500;
      draw = 0;
      op = Op.unwrap;
      dek = some first_dek;
      outcome = failing Class.transient disabled;
    }
    ∷ []

deny_lasts_example :
    let t = applies demo after_deny denied in
    (t.state ≡ State.revoked) × (t.lease.sent_at ≡ 0) × (hot t ≡ 0)
unfolding is
deny_lasts_example =
    deny_lasts demo 300 0 Op.unwrap (some first_dek) (failing Class.deny disabled) warm_tenant refl
      refl refl after_deny (((omega arith, omega arith), ((omega arith, tt), tt)))

tick-lapsed_cold_example : hot (tick demo 30_000_000_000 warm_tenant).1 ≡ 0
unfolding apply usable apply_ok new_tenant renew_lease
tick-lapsed_cold_example =
    tick-lapsed_cold demo 30_000_000_000 warm_tenant warm_tenant-Inv.sound refl

open-seal_example :
    open_envelope clear given 2000 (codes "t-0007") 5 sealed_one ≡ Result.ok (codes "hello")
unfolding seal
open-seal_example =
    open-seal clear 0 given 1000 2000 (codes "t-0007") 5 (codes "hello") sealed_one clear-IsAead
      refl (omega arith)

abbrev message : ℕ
message = 5

abbrev aws_denied : KmsError
aws_denied = record {
  code = Code.access_denied;
  provider = codes "aws";
  msg = codes "kms gcp: Timeout: no";
}

code_from_text-error_text_example :
    let text = codes "tink: unwrap: " ++ error_text aws_denied in
    (code_from_text text ≡ some Code.access_denied) × (cause text ≡ error_text aws_denied)
code_from_text-error_text_example =
    code_from_text-error_text (codes "tink: unwrap: ") aws_denied
      (unfold index in unfold has_prefix in refl) ((λ e. cc), ((λ e. cc), ((λ e. cc), tt)))

abbrev one_key : Fake
one_key = record {
  keks = (codes "kek-7", record { prim = 1; provider = codes "aws"; idx = 7; enabled = true }) ∷ [];
  prov_faults = [];
  kek_faults = [];
  truth = [];
}

one_key-IsExact : IsExact one_key
unfolding lookup
one_key-IsExact id k e = ground arith

abbrev glass : Tink
glass = record {
  encrypt = λ p text ad. TinkResult.bytes text;
  decrypt = λ p ct ad. TinkResult.bytes ct;
}

revoked_round_trip_example :
    (encrypt_with_context glass
        (codes "kek-7")
        0
        Wait.elapsed
        one_key
        (revoke (codes "kek-7") 10 one_key)
        (codes "x")
        []
      ≢ Answer.ok (codes "x"))
    × (decrypt_with_context glass
          (codes "kek-7")
          0
          Wait.elapsed
          one_key
          (revoke (codes "kek-7") 10 one_key)
          (codes "x")
          []
        ≢ Answer.ok (codes "x"))
unfolding lookup same
revoked_round_trip_example =
    revoked_round_trip glass (codes "kek-7") 0 10 Wait.elapsed one_key one_key
      (record { prim = 1; provider = codes "aws"; idx = 7; enabled = true }) (codes "x") []
      (codes "x") refl

frame-IsFirst_example :
    IsFirst
      (codes "put: kms kms aws: Timeout: slow")
      (frame (codes "put: kms kms aws: Timeout: slow"))
frame-IsFirst_example = frame-IsFirst (codes "put: kms kms aws: Timeout: slow")
