-- ===== src/Core/Encrypt.antt =====
-- `EncryptKey` keeps the invariant and gives out handles that lapse within the bound.
use cmek.Base.{ℕ, Option, none, some, Bool, true}
use cmek.Kms.Errors.{GoErr}
use cmek.Core.Types.{Config, Dek, Tenant, Outcome, Op, Handle, Refusal, Result}
use cmek.Core.Invariant.{IsFreshOf}
use cmek.Core.Bound.{Inv, IsAnswer}
use cmek.Core.Run.{Env, M, locked, clock}
use cmek.Core.Rely.{
  Ensures, Ensures-bind, Ensures-return, Ensures-locked, Ensures-flight, Ensures-if,
}
use cmek.Core.Fetcher.{call, generate, flight, renew, probe}
use cmek.Core.Manager.{
  Job, direct_refusal, direct_handle, direct_answer, pass_through_handle, need_gen, unwrap_direct,
  generate_direct, pass_through_encrypt, Route, route, leave_cold, cold_path, enter_encrypt, follow,
  probe_first, encrypt_key,
}
use cmek.Core.Renewal.{
  Any, IsFaithful, Inv-Same, clock-Keeps, section-Keeps, call-Keeps, apply_result-Keeps,
}
use cmek.Core.Flights.{generate-Keeps, renew-Keeps, probe-Keeps}
use cmek.Core.Handles.{
  GoodResult, GoodRoute, Kept, direct_handle-Kept, direct_refusal-Good, need_gen-Same, route-Kept,
  leave_cold-Kept, enter_encrypt-Kept,
}

module _ (c : Config) (limit : Option ℕ) (e : Env) (f : IsFaithful c limit e) where
  abbrev Keeps {ℓ κ} : {A : Type ℓ} → (A → Type κ) → M A → Type (ℓ ⊔ κ)
  Keeps Q m = Ensures (Inv c limit) e Q m

  abbrev Answered : Option Dek × Outcome → Type 0
  Answered p = IsAnswer limit p.1

  -- A section of which more is known.
  pub Kept-Keeps {ℓ κ} :
      {A : Type ℓ} {Q : A → Type κ} (g : Tenant → A × Tenant)
      → ((t : Tenant) → Inv c limit t → Kept c limit Q (g t))
      → Keeps Q (locked g)
  Kept-Keeps g h = Ensures-locked g f.rely (λ t v. ((h t v).inv, (h t v).good))

  direct_answer-Keeps :
      (d : Option Dek) (r : Outcome) (count : Bool) (x : Option GoErr)
      → Keeps (GoodResult c limit) (direct_answer d r count x)
  unfolding direct_answer
  direct_answer-Keeps d r count none = Ensures-bind clock _ (clock-Keeps c limit e f) λ now _.
      Kept-Keeps (direct_handle now d r.prim count) (direct_handle-Kept c limit now d r.prim count)
  direct_answer-Keeps d r count (some x) =
      Ensures-return (direct_refusal r.class x) (direct_refusal-Good c limit r.class x)

  pub pass_through_handle-Keeps :
      (d : Option Dek) (r : Outcome) (count : Bool)
      → Keeps (GoodResult c limit) (pass_through_handle d r count)
  unfolding pass_through_handle
  pass_through_handle-Keeps d r count = direct_answer-Keeps d r count r.err

  known : (d : Option Dek) → IsFreshOf Op.unwrap d
  known none = tt
  known (some d) = tt

  pub unwrap_direct-Keeps : (d : Option Dek) → Keeps Answered (unwrap_direct c d)
  unfolding unwrap_direct
  unwrap_direct-Keeps d = Ensures-bind (call c) _ (call-Keeps c limit e f) λ r a.
      Ensures-bind _ _ (apply_result-Keeps c limit e f Op.unwrap d r (known d) a)
        λ _ _. Ensures-return (d, r) a

  need_gen-Keeps : (now : ℕ) → Keeps Any (locked (need_gen c now))
  need_gen-Keeps now =
      section-Keeps c limit e f (need_gen c now)
        (λ t v. Inv-Same c limit t (need_gen c now t).1 (need_gen-Same c now t) v)

  generate_direct-Keeps : Keeps Answered (generate_direct c)
  unfolding generate_direct
  generate_direct-Keeps = Ensures-bind clock _ (clock-Keeps c limit e f) λ now _.
      Ensures-bind (locked (need_gen c now)) _ (need_gen-Keeps now) λ (d, still) _.
        Ensures-if still (generate c) (unwrap_direct c d) (λ _. generate-Keeps c limit e f)
          (λ _. unwrap_direct-Keeps d)

  pass_through_encrypt-Keeps : Keeps (GoodResult c limit) (pass_through_encrypt c)
  unfolding pass_through_encrypt
  pass_through_encrypt-Keeps = Ensures-bind clock _ (clock-Keeps c limit e f) λ now _.
      Ensures-bind (locked (need_gen c now)) _ (need_gen-Keeps now) λ (d, gen) _.
        Ensures-bind _ _
          (Ensures-if {Q = Answered} gen (flight (λ j. (j.dek, j.outcome)) (generate_direct c))
            (unwrap_direct c d)
            (λ _.
              Ensures-flight (λ j. (j.dek, j.outcome)) (generate_direct c) f.joined
                generate_direct-Keeps)
            (λ _. unwrap_direct-Keeps d))
          λ (d', r) _. pass_through_handle-Keeps d' r true

  cold_path-Keeps : Keeps (GoodResult c limit) (cold_path c)
  unfolding cold_path
  cold_path-Keeps = Ensures-bind (renew c true) _ (renew-Keeps c limit e f true) λ x _.
      Ensures-bind clock _ (clock-Keeps c limit e f)
        λ now _. Kept-Keeps (leave_cold c now x) (leave_cold-Kept c limit now x)

  abbrev GoodAnswer : Result Handle × Option Job → Type 0
  GoodAnswer p = GoodResult c limit p.0

  follow-Keeps : (r : Route) → GoodRoute c limit r → Keeps GoodAnswer (follow c r)
  unfolding follow
  follow-Keeps (Route.answer a) g = Ensures-return (a, none) g
  follow-Keeps (Route.answer_and_probe h) g = Ensures-return (Result.ok h, some Job.probe_job) g
  follow-Keeps Route.direct_route g =
      Ensures-bind (pass_through_encrypt c) _ pass_through_encrypt-Keeps
        λ a q. Ensures-return (a, none) q
  follow-Keeps Route.cold_route g =
      Ensures-bind (cold_path c) _ cold_path-Keeps λ a q. Ensures-return (a, none) q
  follow-Keeps Route.probe_route g = Ensures-return (Result.err Refusal.key_unavailable, none) tt

  probe_first-Keeps :
      (r : Route) → GoodRoute c limit r → Keeps (GoodRoute c limit) (probe_first c r)
  unfolding probe_first
  probe_first-Keeps Route.probe_route g = Ensures-bind (probe c) _ (probe-Keeps c limit e f) λ _ _.
      Ensures-bind clock _ (clock-Keeps c limit e f)
        λ now _. Kept-Keeps (route c now) (route-Kept c limit now)
  probe_first-Keeps (Route.answer a) g = Ensures-return (Route.answer a) g
  probe_first-Keeps (Route.answer_and_probe h) g = Ensures-return (Route.answer_and_probe h) g
  probe_first-Keeps Route.direct_route g = Ensures-return Route.direct_route tt
  probe_first-Keeps Route.cold_route g = Ensures-return Route.cold_route tt

  pub encrypt_key-Keeps : Keeps GoodAnswer (encrypt_key c)
  unfolding encrypt_key
  encrypt_key-Keeps = Ensures-bind clock _ (clock-Keeps c limit e f) λ now _.
      Ensures-bind (locked (enter_encrypt c now)) _
        (Kept-Keeps (enter_encrypt c now) (enter_encrypt-Kept c limit now))
        λ r g. Ensures-bind (probe_first c r) _ (probe_first-Keeps r g) λ q h. follow-Keeps q h
