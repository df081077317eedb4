-- ===== src/Core/Flights.antt =====
-- Generates, renewals, probes and warms keep the invariant of `Core.Bound`.
use cmek.Base.{ℕ, ◌≡◌, refl, Option, none, some, Bool, false, arith, is_some}
use cmek.Kms.Errors.{GoErr, Sentinel, is}
use cmek.Core.Types.{Config, Dek, Tenant, Outcome, Op}
use cmek.Core.Apply.{has}
use cmek.Core.Invariant.{IsFreshOf}
use cmek.Core.Bound.{Inv, IsAnswer}
use cmek.Core.Run.{Env, M, return, ask, locked, clock}
use cmek.Core.Rely.{
  Ensures, Ensures-bind, Ensures-return, Ensures-ask, Ensures-locked, Ensures-flight, Ensures-if,
}
use cmek.Core.Fetcher.{
  call, allocate, store_error, finish_generate, store_new, generate_from, generate, flight,
  unwrap_active, generate_active, read, renew_flight, renew, need, satisfied, stop_probing,
  clear_probing, probe, already_hot, warm_cold, warm_flight, warm,
}
use cmek.Core.Renewal.{
  Any, IsFaithful, Same, Inv-Same, clock-Keeps, section-Keeps, call-Keeps, apply_result-Keeps,
}

-- The outcome that a store error leaves of a call that succeeded.
stored-IsAnswer :
    (limit : Option ℕ) (r : Outcome) (x : GoErr)
    → is_some r.err ≡ false
    → IsAnswer limit r
    → IsAnswer limit (record r { err = some (store_error x) })
unfolding is
stored-IsAnswer limit r x h a = record {
  answered = λ _. a.answered (no_error r.err h);
  in_time = λ k. cc;
  classed = λ _ _ k. cc;
}
  where
    no_error : (o : Option GoErr) → is_some o ≡ false → has o Sentinel.busy ≡ false
    no_error none k = refl
    no_error (some y) k = cc

pub allocate-Same : (now : ℕ) (r : Outcome) (t : Tenant) → Same t (allocate now r t).1
unfolding allocate
allocate-Same now r t = ground arith

pub already_hot-Same : (d : Dek) (t : Tenant) → Same t (already_hot d t).1
unfolding already_hot
already_hot-Same d t = ground arith

module _ (c : Config) (limit : Option ℕ) (e : Env) (f : IsFaithful c limit e) where
  abbrev Keeps {ℓ κ} : {A : Type ℓ} → (A → Type κ) → M A → Type (ℓ ⊔ κ)
  Keeps Q m = Ensures (Inv c limit) e Q m

  abbrev Answered : Option Dek × Outcome → Type 0
  Answered p = IsAnswer limit p.1

  finish_generate-Keeps :
      (d : Dek) (r : Outcome) (x : Option GoErr)
      → is_some d.prim ≡ false
      → is_some r.err ≡ false
      → IsAnswer limit r
      → Keeps Answered (finish_generate c d r x)
  unfolding finish_generate
  finish_generate-Keeps d r none cold ok a =
      Ensures-bind _ _ (apply_result-Keeps c limit e f Op.generate (some d) r cold a)
        λ _ _. Ensures-return (some d, r) a
  finish_generate-Keeps d r (some x) cold ok a =
      let r' : Outcome = record r { err = some (store_error x) } in
      let a' : IsAnswer limit r' = stored-IsAnswer limit r x ok a in
      Ensures-bind _ _ (apply_result-Keeps c limit e f Op.generate (some d) r' cold a')
        λ _ _. Ensures-return (none, r') a'

  store_new-Keeps :
      (r : Outcome) → is_some r.err ≡ false → IsAnswer limit r → Keeps Answered (store_new c r)
  unfolding store_new
  store_new-Keeps r ok a = Ensures-bind clock _ (clock-Keeps c limit e f) λ now _.
      Ensures-bind (locked (allocate now r)) _
        (Ensures-locked {Q = λ p. is_some p.0.prim ≡ false} (allocate now r) f.rely (λ t v. (
          Inv-Same c limit t (allocate now r t).1 (allocate-Same now r t) v,
          unfold allocate in refl,
        )))
        λ (d, w) cold.
          Ensures-bind (ask (λ d n. d.put_dek n)) _ (Ensures-ask {Q = Any} _ (λ _. tt))
            λ x _. finish_generate-Keeps d r x cold ok a

  generate_from-Keeps :
      (r : Outcome) (x : Option GoErr)
      → r.err ≡ x
      → IsAnswer limit r
      → Keeps Answered (generate_from c r x)
  unfolding generate_from
  generate_from-Keeps r none h a = store_new-Keeps r (rw h) a
  generate_from-Keeps r (some x) h a =
      Ensures-bind _ _ (apply_result-Keeps c limit e f Op.generate none r tt a)
        λ _ _. Ensures-return (none, r) a

  pub generate-Keeps : Keeps Answered (generate c)
  unfolding generate
  generate-Keeps =
      Ensures-bind (call c) _ (call-Keeps c limit e f) λ r a. generate_from-Keeps r r.err refl a

  unwrap_active-Keeps : (d : Option Dek) → Keeps Any (unwrap_active c d)
  unfolding unwrap_active
  unwrap_active-Keeps d = Ensures-bind (call c) _ (call-Keeps c limit e f) λ r a.
      Ensures-bind _ _ (apply_result-Keeps c limit e f Op.unwrap d r (known d) a)
        λ _ _. Ensures-return r.err tt
    where
      known : (d : Option Dek) → IsFreshOf Op.unwrap d
      known none = tt
      known (some d) = tt

  generate_active-Keeps : Keeps Any (generate_active c)
  unfolding generate_active
  generate_active-Keeps =
      Ensures-bind (generate c) _ generate-Keeps λ (d, r) a. Ensures-return r.err tt

  pub read-Keeps {ℓ} : {A : Type ℓ} (g : Tenant → A) → Keeps Any (locked (read g))
  read-Keeps g = section-Keeps c limit e f (read g) (λ t v. unfold read in v)

  renew_flight-Keeps : (cold gen : Bool) (d : Option Dek) → Keeps Any (renew_flight c cold gen d)
  unfolding renew_flight
  renew_flight-Keeps cold gen d = Ensures-bind clock _ (clock-Keeps c limit e f) λ now _.
      Ensures-bind (locked (read (satisfied c cold now))) _ (read-Keeps (satisfied c cold now))
        λ met _.
          Ensures-if met (return none) _ (λ _. Ensures-return none tt)
            λ _.
              Ensures-if gen (generate_active c) (unwrap_active c d) (λ _. generate_active-Keeps)
                (λ _. unwrap_active-Keeps d)

  pub renew-Keeps : (cold : Bool) → Keeps Any (renew c cold)
  unfolding renew
  renew-Keeps cold = Ensures-bind clock _ (clock-Keeps c limit e f) λ now _.
      Ensures-bind (locked (read (need c cold now))) _ (read-Keeps (need c cold now)) λ (d, gen) _.
        Ensures-flight (λ j. j.err) (renew_flight c cold gen d) (λ _ _ _. tt)
          (renew_flight-Keeps cold gen d)

  clear_probing-Keeps : Keeps Any clear_probing
  unfolding clear_probing
  clear_probing-Keeps =
      section-Keeps c limit e f stop_probing
        (λ t v. unfold stop_probing in Inv-Same c limit t _ (refl, refl, refl, refl, refl, refl) v)

  pub probe-Keeps : Keeps Any (probe c)
  unfolding probe
  probe-Keeps = Ensures-bind (renew c false) _ (renew-Keeps false) λ _ _. clear_probing-Keeps

  warm_cold-Keeps : (d : Dek) → Keeps Any (warm_cold c d)
  unfolding warm_cold
  warm_cold-Keeps d = Ensures-bind (call c) _ (call-Keeps c limit e f) λ r a.
      Ensures-bind _ _ (apply_result-Keeps c limit e f Op.warm (some d) r tt a)
        λ _ _. Ensures-return r.err tt

  warm_flight-Keeps : (d : Dek) → Keeps Any (warm_flight c d)
  unfolding warm_flight
  warm_flight-Keeps d =
      Ensures-bind (locked (already_hot d)) _
        (section-Keeps c limit e f (already_hot d)
          (λ t v. Inv-Same c limit t (already_hot d t).1 (already_hot-Same d t) v))
        λ hot _.
          Ensures-if hot (return none) (warm_cold c d) (λ _. Ensures-return none tt)
            (λ _. warm_cold-Keeps d)

  pub warm-Keeps : (d : Dek) → Keeps Any (warm c d)
  unfolding warm
  warm-Keeps d =
      Ensures-bind (flight (λ j. j.err) (warm_flight c d)) _
        (Ensures-flight (λ j. j.err) (warm_flight c d) (λ _ _ _. tt) (warm_flight-Keeps d))
        λ _ _. clear_probing-Keeps
