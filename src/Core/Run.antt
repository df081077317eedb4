-- ===== src/Core/Run.antt =====
-- How one goroutine of internal/cmek runs: a chain of critical sections on one tenant, with the
-- clock, the key service, the store and the other goroutines as an environment.
--
-- The step counter `at` numbers the points at which the environment is asked. Each time the
-- tenant's lock is given back, `others` says what the other goroutines make of the tenant before
-- this one goes on.
use cmek.Base.{ℕ, suc, Bytes, Option, Bool}
use cmek.Kms.Errors.{GoErr}
use cmek.Core.Types.{Tenant, Outcome, Dek}

-- What the key service and Tink give back for one call: an error, or a primitive and, for a
-- generate, the wrapped keyset.
pub record Reply : Type 0 where
  pub err : Option GoErr
  pub prim : Option ℕ
  pub wrapped : Bytes

-- What a caller that joins a running flight of golang.org/x/sync/singleflight gets from it. A
-- pass-through Seal that joins a renew's flight under the key `<tenant>/generate` gets a nil value
-- and panics at its type assertion; such a run has no model here.
pub record Joined : Type 0 where
  pub err : Option GoErr
  pub dek : Option Dek
  pub outcome : Outcome

pub record Env : Type 0 where
  -- `Clock.Now` and `Jitter.Float64`.
  pub now : ℕ → ℕ
  pub draw : ℕ → ℕ
  -- Whether the provider's semaphore is taken before the call's deadline; the text of `ctx.Err()`.
  pub slot : ℕ → Bool
  pub ctx_err : ℕ → Bytes
  -- The call itself.
  pub kms : ℕ → Reply
  -- The error of `Store.PutDEK`.
  pub put_dek : ℕ → Option GoErr
  -- A flight that is running already under the same key.
  pub join : ℕ → Option Joined
  pub others : ℕ → Tenant → Tenant

pub record St : Type 0 where
  pub at : ℕ
  pub tenant : Tenant

abbrev pub M {ℓ} : Type ℓ → Type ℓ
M A = Env → St → A × St

infixl 5 ◌>>=◌ ◌>>◌
abbrev pub ◌>>=◌ {ℓ κ} : {A : Type ℓ} {B : Type κ} → M A → (A → M B) → M B
◌>>=◌ m f e s = let (a, s') = m e s in f a e s'

abbrev pub ◌>>◌ {ℓ κ} : {A : Type ℓ} {B : Type κ} → M A → M B → M B
m >> k = m >>= λ _. k

module _ {ℓ} {A : Type ℓ} where
  unfoldable pub return : A → M A
  return a e s = (a, s)

  unfoldable pub ask : (Env → ℕ → A) → M A
  ask f e s = (f e s.at, record s { at = suc s.at })

  -- Lock, do `f`, unlock; then the other goroutines have their turn.
  unfoldable pub locked : (Tenant → A × Tenant) → M A
  locked f e s = let (a, t) = f s.tenant in (a, record { at = suc s.at; tenant = e.others s.at t })

unfoldable pub clock : M ℕ
unfolding ask
clock = ask (λ e n. e.now n)

abbrev pub unit_and : Tenant → Unit {0} × Tenant
unit_and t = (tt, t)
