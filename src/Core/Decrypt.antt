-- ===== src/Core/Decrypt.antt =====
-- `DecryptKey` keeps the invariant and gives out handles that lapse within the bound.
use cmek.Base.{ℕ, Bytes, Option, none, some, true, false, arith, Option-cases, inl, inr, lookup}
use cmek.Core.Types.{Config, Dek, Tenant, Refusal, Result}
use cmek.Core.Bound.{Inv}
use cmek.Core.Run.{Env, M, locked, clock}
use cmek.Core.Rely.{Ensures, Ensures-bind, Ensures-return}
use cmek.Core.Manager.{Job, unwrap_direct}
use cmek.Core.Delivery.{
  inline_job, Step, check, start_inline, enter_decrypt, run_job, check_again, decrypt_inline,
  decrypt_direct, finish_decrypt, decrypt_key,
}
use cmek.Core.Renewal.{Any, IsFaithful, clock-Keeps}
use cmek.Core.Flights.{probe-Keeps, warm-Keeps}
use cmek.Core.Handles.{GoodResult, Kept, marked-Inv, lease-Lapses}
use cmek.Core.Encrypt.{Kept-Keeps, unwrap_direct-Keeps, pass_through_handle-Keeps}

abbrev pub GoodStep : Config → Option ℕ → Step → Type 0
GoodStep c limit (Step.answer a) = GoodResult c limit a
GoodStep c limit _ = Unit {0}

check-Kept :
    (c : Config) (limit : Option ℕ) (d : Dek) (now : ℕ) (t : Tenant)
    → Inv c limit t
    → Kept c limit (GoodStep c limit) (check d now t)
unfolding check
check-Kept c limit d now t v = ground (arith, v, lease-Lapses c limit t d.id d.prim v)

pub check_again-Kept :
    (c : Config) (limit : Option ℕ) (d : Dek) (now : ℕ) (t : Tenant)
    → Inv c limit t
    → Kept c limit (GoodStep c limit) (check_again d now t)
unfolding check_again
check_again-Kept c limit d now t v = elim (Option-cases (lookup d.id t.deks)) [
  | inl e ↦ rw (e, check_again) (check-Kept c limit d now t v)
  | inr (x, e) ↦ rw (e, check_again) (check-Kept c limit x now t v)
]

start_inline-Kept :
    (c : Config) (limit : Option ℕ) (d : Dek) (now : ℕ) (t : Tenant) (j : Option Job)
    → Inv c limit t
    → Kept c limit (GoodStep c limit) (start_inline d now t j)
unfolding start_inline
start_inline-Kept c limit d now t none v = check-Kept c limit d now t v
start_inline-Kept c limit d now t (some j) v = record {
  inv = marked-Inv c limit t true v;
  good = tt;
}

pub enter_decrypt-Kept :
    (c : Config) (limit : Option ℕ) (id : Bytes) (now : ℕ) (t : Tenant)
    → Inv c limit t
    → Kept c limit (GoodStep c limit) (enter_decrypt id now t)
unfolding enter_decrypt
enter_decrypt-Kept c limit id now t v = elim (Option-cases (lookup id t.deks)) [
  | inl e ↦ rw (e, enter_decrypt) (record { inv = v; good = tt })
  | inr (d, e) ↦ rw (e, enter_decrypt) (start_inline-Kept c limit d now t (inline_job d now t) v)
]

module _ (c : Config) (limit : Option ℕ) (e : Env) (f : IsFaithful c limit e) where
  abbrev Keeps {ℓ κ} : {A : Type ℓ} → (A → Type κ) → M A → Type (ℓ ⊔ κ)
  Keeps Q m = Ensures (Inv c limit) e Q m

  run_job-Keeps : (j : Job) → Keeps Any (run_job c j)
  unfolding run_job
  run_job-Keeps Job.probe_job = probe-Keeps c limit e f
  run_job-Keeps (Job.warm_job d) = warm-Keeps c limit e f d

  decrypt_inline-Keeps :
      (st : Step) → GoodStep c limit st → Keeps (GoodStep c limit) (decrypt_inline c st)
  unfolding decrypt_inline
  decrypt_inline-Keeps (Step.inline d j) g = Ensures-bind (run_job c j) _ (run_job-Keeps j) λ _ _.
      Ensures-bind clock _ (clock-Keeps c limit e f)
        λ now _. Kept-Keeps c limit e f (check_again d now) (check_again-Kept c limit d now)
  decrypt_inline-Keeps (Step.answer a) g = Ensures-return (Step.answer a) g
  decrypt_inline-Keeps (Step.direct_call d) g = Ensures-return (Step.direct_call d) tt

  finish_decrypt-Keeps :
      (st : Step) → GoodStep c limit st → Keeps (GoodResult c limit) (finish_decrypt c st)
  unfolding finish_decrypt decrypt_direct
  finish_decrypt-Keeps (Step.answer a) g = Ensures-return a g
  finish_decrypt-Keeps (Step.direct_call d) g =
      Ensures-bind (unwrap_direct c (some d)) _ (unwrap_direct-Keeps c limit e f (some d))
        λ (x, r) _. pass_through_handle-Keeps c limit e f x r false
  finish_decrypt-Keeps (Step.inline d j) g = Ensures-return (Result.err Refusal.lease_expired) tt

  pub decrypt_key-Keeps : (id : Bytes) → Keeps (GoodResult c limit) (decrypt_key c id)
  unfolding decrypt_key
  decrypt_key-Keeps id = Ensures-bind clock _ (clock-Keeps c limit e f) λ now _.
      Ensures-bind (locked (enter_decrypt id now)) _
        (Kept-Keeps c limit e f (enter_decrypt id now) (enter_decrypt-Kept c limit id now))
        λ st g.
          Ensures-bind (decrypt_inline c st) _ (decrypt_inline-Keeps st g)
            λ u h. finish_decrypt-Keeps u h
