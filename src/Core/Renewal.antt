-- ===== src/Core/Renewal.antt =====
-- The calls, renewals, probes and generates of internal/cmek/fetcher.go keep the invariant of
-- `Core.Bound`, whatever the other goroutines do in between that keeps it too.
use cmek.Base.{ℕ, suc, ◌<◌, ◌≡◌, refl, Bytes, Option, none, some, Bool, false, arith, is_some, ◌||◌}
use cmek.Kms.Errors.{GoErr, Code, is}
use cmek.Core.Types.{Class, Config, Dek, Tenant, Outcome, Op}
use cmek.Core.Classify.{class_of_code, classify_error, classify}
use cmek.Core.Invariant.{IsFreshOf}
use cmek.Core.Bound.{Within, Inv, IsAnswer, apply-Inv}
use cmek.Core.Run.{Env, Reply, Joined, M, ask, locked, clock}
use cmek.Core.Rely.{
  Rely, Ensures, Ensures-bind, Ensures-return, Ensures-ask, Ensures-locked, Ensures-if,
}
use cmek.Core.Fetcher.{
  busy_outcome, Entry, enter_call, leave_call, bulkhead_outcome, outcome_of, call_inside,
  bulkhead_timeout, call_provider, call_entered, open_call, call, apply_section, apply_result,
}

-- Nothing is claimed of the result.
abbrev pub Any {ℓ} : {A : Type ℓ} → A → Type 0
Any a = Unit {0}

-- What a goroutine relies on: a clock past the zero instant, a key service that answers no call
-- sent past the limit with success, flights whose outcome is an answer, and other goroutines that
-- keep the invariant.
pub record IsFaithful (c : Config) (limit : Option ℕ) (e : Env) : Type 0 where
  pub ticking : (n : ℕ) → 0 < e.now n
  pub refused : (n : ℕ) → is_some (e.kms (suc n)).err ≡ false → Within limit (e.now n)
  pub joined : (n : ℕ) (j : Joined) → e.join n ≡ some j → IsAnswer limit j.outcome
  pub rely : Rely (Inv c limit) e

class_of_code-ne-ok : (k : Code) → class_of_code k ≡ Class.ok → ⊥
unfolding class_of_code
class_of_code-ne-ok Code.timeout h = cc
class_of_code-ne-ok Code.unavailable h = cc
class_of_code-ne-ok Code.access_denied h = cc
class_of_code-ne-ok Code.key_disabled h = cc

classify_error-ne-ok : (e : GoErr) → classify_error e ≡ Class.ok → ⊥
unfolding classify_error
classify_error-ne-ok e h = ground (
  arith,
  class_of_code-ne-ok Code.timeout,
  class_of_code-ne-ok Code.unavailable,
  class_of_code-ne-ok Code.access_denied,
  class_of_code-ne-ok Code.key_disabled,
)

-- Class OK is the class of no error.
classify-ok : (o : Option GoErr) → classify o ≡ Class.ok → is_some o ≡ false
unfolding classify
classify-ok none h = refl
classify-ok (some e) h = absurd (classify_error-ne-ok e h)

outcome_of-IsAnswer :
    (limit : Option ℕ) (sent_at done : ℕ) (reply : Reply)
    → 0 < sent_at
    → (is_some reply.err ≡ false → Within limit sent_at)
    → IsAnswer limit (outcome_of sent_at done reply)
unfolding outcome_of
outcome_of-IsAnswer limit sent_at done reply h w = record {
  answered = λ _. h;
  in_time = w;
  classed = λ k _ _. classify-ok reply.err k;
}

bulkhead-IsAnswer :
    (limit : Option ℕ) (provider : Bytes) (now : ℕ) (why : Bytes)
    → 0 < now
    → IsAnswer limit (bulkhead_outcome provider now why)
unfolding bulkhead_outcome
bulkhead-IsAnswer limit provider now why h = record {
  answered = λ _. h;
  in_time = λ k. cc;
  classed = λ k _ _. cc;
}

busy-IsAnswer : (limit : Option ℕ) → IsAnswer limit busy_outcome
unfolding is
busy-IsAnswer limit = record { answered = λ k. cc; in_time = λ k. cc; classed = λ k b _. cc }

-- A section that touches neither the lease nor the cache.
abbrev pub Same : Tenant → Tenant → Type 0
Same t u =
    (u.lease ≡ t.lease)
    × (u.deks ≡ t.deks)
    × (u.state ≡ t.state)
    × (u.fetch ≡ t.fetch)
    × (u.denied_at ≡ t.denied_at)
    × (u.published ≡ t.published)

pub Inv-Same :
    (c : Config) (limit : Option ℕ) (t u : Tenant) → Same t u → Inv c limit t → Inv c limit u
Inv-Same c none t u h v = ground arith
Inv-Same c (some r) t u h v = ground arith

enter_call-Same : (c : Config) (t : Tenant) → Same t (enter_call c t).1
unfolding enter_call
enter_call-Same c t = ground arith

pub open_call-Same : (c : Config) (t : Tenant) → Same t (open_call c t).1
unfolding open_call
open_call-Same c t = enter_call-Same c t

pub leave_call-Same : (n : Entry) (t : Tenant) → Same t (leave_call n t).1
unfolding leave_call
leave_call-Same Entry.full t = ground arith
leave_call-Same Entry.counted t = ground arith
leave_call-Same Entry.uncapped t = ground arith

module _ (c : Config) (limit : Option ℕ) (e : Env) (f : IsFaithful c limit e) where
  abbrev Keeps {ℓ κ} : {A : Type ℓ} → (A → Type κ) → M A → Type (ℓ ⊔ κ)
  Keeps Q m = Ensures (Inv c limit) e Q m

  pub clock-Keeps : Keeps (λ now. 0 < now) clock
  unfolding clock
  clock-Keeps = Ensures-ask (λ d n. d.now n) f.ticking

  -- A section whose function keeps the invariant on its own.
  pub section-Keeps {ℓ} :
      {A : Type ℓ} (g : Tenant → A × Tenant)
      → ((t : Tenant) → Inv c limit t → Inv c limit (g t).1)
      → Keeps Any (locked g)
  section-Keeps g h = Ensures-locked g f.rely (λ t v. (h t v, tt))

  call_inside-Keeps : Keeps (IsAnswer limit) call_inside
  unfolding call_inside
  call_inside-Keeps = record {
    run = λ s p. (
      p,
      outcome_of-IsAnswer limit (e.now s.at) (e.now (suc (suc s.at))) (e.kms (suc s.at))
          (f.ticking s.at) (f.refused s.at),
    );
  }

  bulkhead_timeout-Keeps : (provider : Bytes) → Keeps (IsAnswer limit) (bulkhead_timeout provider)
  unfolding bulkhead_timeout
  bulkhead_timeout-Keeps provider = record {
    run = λ s p.
        (p, bulkhead-IsAnswer limit provider (e.now s.at) (e.ctx_err (suc s.at)) (f.ticking s.at));
  }

  call_provider-Keeps :
      (provider : Bytes) (naive : Bool) → Keeps (IsAnswer limit) (call_provider provider naive)
  unfolding call_provider
  call_provider-Keeps provider naive =
      Ensures-bind (ask (λ d n. naive || d.slot n)) _ (Ensures-ask {Q = Any} _ (λ _. tt)) λ got _.
        Ensures-if got call_inside (bulkhead_timeout provider) (λ _. call_inside-Keeps)
          (λ _. bulkhead_timeout-Keeps provider)

  call_entered-Keeps :
      (provider : Bytes) (naive : Bool) (n : Entry)
      → Keeps (IsAnswer limit) (call_entered provider naive n)
  unfolding call_entered
  call_entered-Keeps provider naive Entry.full = Ensures-return busy_outcome (busy-IsAnswer limit)
  call_entered-Keeps provider naive Entry.uncapped = call_provider-Keeps provider naive
  call_entered-Keeps provider naive Entry.counted =
      Ensures-bind (call_provider provider naive) _ (call_provider-Keeps provider naive) λ r a.
        Ensures-bind (locked (leave_call Entry.counted)) _
          (section-Keeps (leave_call Entry.counted)
            (λ t v. Inv-Same c limit t _ (leave_call-Same Entry.counted t) v))
          λ _ _. Ensures-return r a

  pub call-Keeps : Keeps (IsAnswer limit) (call c)
  unfolding call
  call-Keeps =
      Ensures-bind (locked (open_call c)) _
        (section-Keeps (open_call c)
          (λ t v. Inv-Same c limit t (open_call c t).1 (open_call-Same c t) v))
        λ (naive, provider, n) _. call_entered-Keeps provider naive n

  pub apply_result-Keeps :
      (op : Op) (d : Option Dek) (r : Outcome)
      → IsFreshOf op d
      → IsAnswer limit r
      → Keeps Any (apply_result c op d r)
  unfolding apply_result
  apply_result-Keeps op d r fresh a = Ensures-bind clock _ clock-Keeps λ now _.
      Ensures-bind (ask (λ d n. d.draw n)) _ (Ensures-ask {Q = Any} _ (λ _. tt)) λ u _.
        section-Keeps (apply_section c now u op d r)
          (λ t v. unfold apply_section in apply-Inv c limit now u op d r t a fresh v)
