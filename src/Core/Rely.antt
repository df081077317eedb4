-- ===== src/Core/Rely.antt =====
-- Reasoning about a goroutine of the core: an invariant that each of its sections keeps, and that
-- the other goroutines keep, holds at the end, with what is known of the result.
use cmek.Base.{ℕ, suc, some, Bool, true, false, ◌≡◌, refl, if◌then◌else◌, Option-cases, inl, inr}
use cmek.Core.Types.{Tenant}
use cmek.Core.Run.{Env, Joined, St, M, ◌>>=◌, return, ask, locked}
use cmek.Core.Fetcher.{flight}

-- What the other goroutines keep.
abbrev pub Rely {κ} : (Tenant → Type κ) → Env → Type κ
Rely P e = (n : ℕ) (t : Tenant) → P t → P (e.others n t)

-- From every state with `P`, the run ends with `P` and its result has `Q`.
pub record Ensures {ℓ κ μ} {A : Type ℓ} (P : Tenant → Type κ) (e : Env) (Q : A → Type μ) (m : M A)
    : Type (ℓ ⊔ κ ⊔ μ) where
  pub run : (s : St) → P s.tenant → P (m e s).1.tenant × Q (m e s).0

module _ {κ} {P : Tenant → Type κ} {e : Env} where
  pub Ensures-bind {ℓ ℓ' μ ν} :
      {A : Type ℓ} {B : Type ℓ'} {Q : A → Type μ} {R : B → Type ν} (m : M A) (f : A → M B)
      → Ensures P e Q m
      → ((a : A) → Q a → Ensures P e R (f a))
      → Ensures P e R (m >>= f)
  Ensures-bind m f hm hf = record {
    run = λ s p. let (p', q) = hm.run s p in (hf (m e s).0 q).run (m e s).1 p';
  }

  pub Ensures-return {ℓ μ} : {A : Type ℓ} {Q : A → Type μ} (a : A) → Q a → Ensures P e Q (return a)
  unfolding return
  Ensures-return a q = record { run = λ s p. (p, q) }

  pub Ensures-ask {ℓ μ} :
      {A : Type ℓ} {Q : A → Type μ} (f : Env → ℕ → A)
      → ((n : ℕ) → Q (f e n))
      → Ensures P e Q (ask f)
  unfolding ask
  Ensures-ask f h = record { run = λ s p. (p, h s.at) }

  -- A section keeps the invariant if its function does, and the others keep it afterwards.
  pub Ensures-locked {ℓ μ} :
      {A : Type ℓ} {Q : A → Type μ} (f : Tenant → A × Tenant)
      → Rely P e
      → ((t : Tenant) → P t → P (f t).1 × Q (f t).0)
      → Ensures P e Q (locked f)
  unfolding locked
  Ensures-locked f rely h = record {
    run = λ s p. let (p', q) = h s.tenant p in (rely s.at (f s.tenant).1 p', q);
  }

  -- What the caller that joins a flight is given has to be as good as what running it gives.
  pub Ensures-flight {ℓ μ} :
      {A : Type ℓ} {Q : A → Type μ} (shared : Joined → A) (m : M A)
      → ((n : ℕ) (j : Joined) → e.join n ≡ some j → Q (shared j))
      → Ensures P e Q m
      → Ensures P e Q (flight shared m)
  unfolding flight
  Ensures-flight {Q = Q} shared m hj hm = record {
    run = λ s p. elim (Option-cases (e.join s.at)) [
      | inl h ↦ rw (h, flight) (hm.run (record s { at = suc s.at }) p)
      | inr (j, h) ↦ rw (h, flight) (p, hj s.at j h)
    ];
  }

  pub Ensures-if {ℓ μ} :
      {A : Type ℓ} {Q : A → Type μ} (b : Bool) (m k : M A)
      → (b ≡ true → Ensures P e Q m)
      → (b ≡ false → Ensures P e Q k)
      → Ensures P e Q (if b then m else k)
  Ensures-if true m k hm hk = hm refl
  Ensures-if false m k hm hk = hk refl
