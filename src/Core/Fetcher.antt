-- ===== src/Core/Fetcher.antt =====
-- internal/cmek/fetcher.go: renewal, probes and warms, on the calls and new data keys of two children.
mod Call
mod Generate
unfoldable pub use Call.*
unfoldable pub use Generate.*
use cmek.Base.{
  ℕ, suc, ◌+◌, ◌-◌, Bytes, codes, itoa, ◌++◌, lookup, delete, [], ◌∷◌, Option, none, some, Bool,
  true, false, ltb, leb, not, ◌&&◌, ◌||◌, if◌then◌else◌, is_some,
}
use cmek.Kms.Errors.{GoErr, Sentinel}
use cmek.Core.Lease.{usable, soft_due}
use cmek.Core.Types.{Class, Config, Dek, Tenant, Outcome, Op, WrappedDek}
use cmek.Core.Classify.{classify}
use cmek.Core.Tenant.{is_active, is_naive, active_dek, exhausted}
use cmek.Core.Apply.{apply}
use cmek.Core.Run.{Reply, Joined, M, ◌>>=◌, ◌>>◌, return, ask, locked, clock}

unfoldable pub satisfied : Config → Bool → ℕ → Tenant → Bool
satisfied c cold now t = elim (active_dek t) [
  | none ↦ false
  | some d ↦
      let fresh =
        is_some d.prim && usable t.lease now && not (is_active t.state && exhausted c d now) in
      if cold then fresh else is_active t.state && fresh && not (soft_due t.lease now)
]

-- `sf.Do`: run `f`, or take what a running flight gives.
unfoldable pub flight {ℓ} : {A : Type ℓ} → (Joined → A) → M A → M A
flight shared f e s = elim (e.join s.at) [
  | none ↦ f e (record s { at = suc s.at })
  | some j ↦ (shared j, record s { at = suc s.at })
]

unfoldable pub unwrap_active : Config → Option Dek → M (Option GoErr)
unfolding call apply_result return
unwrap_active c d = do r ← call c; apply_result c Op.unwrap d r; return r.err

unfoldable pub generate_active : Config → M (Option GoErr)
unfolding generate
generate_active c = do (d, r) ← generate c; return r.err

-- A section that only reads.
unfoldable pub read {ℓ} : {A : Type ℓ} → (Tenant → A) → Tenant → A × Tenant
read g t = (g t, t)

unfoldable pub renew_flight : Config → Bool → Bool → Option Dek → M (Option GoErr)
unfolding clock locked return
renew_flight c cold gen d = do
  now ← clock
  met ← locked (read (satisfied c cold now))
  if met then return none else if gen then generate_active c else unwrap_active c d

-- What `renew` decides before the flight.
unfoldable pub need : Config → Bool → ℕ → Tenant → Option Dek × Bool
need c cold now t = elim (active_dek t) [
  | none ↦ (none, true)
  | some d ↦ (some d, cold && is_active t.state && exhausted c d now)
]

unfoldable pub renew : Config → Bool → M (Option GoErr)
unfolding clock locked flight
renew c cold = do
  now ← clock
  (d, gen) ← locked (read (need c cold now))
  flight (λ j. j.err) (renew_flight c cold gen d)

unfoldable pub stop_probing : Tenant → Unit {0} × Tenant
stop_probing t = (tt, record t { probing = false })

unfoldable pub clear_probing : M (Unit {0})
unfolding locked stop_probing
clear_probing = locked stop_probing

unfoldable pub probe : Config → M (Unit {0})
unfolding renew clear_probing
probe c = do renew c false; clear_probing

-- The section in which a warm looks whether another flight was first.
unfoldable pub already_hot : Dek → Tenant → Bool × Tenant
already_hot d t = elim (lookup d.id t.deks) [
  | none ↦
      (is_some d.prim, if is_some d.prim then record t { pending = delete d.id t.pending } else t)
  | some e ↦
      (is_some e.prim, if is_some e.prim then record t { pending = delete d.id t.pending } else t)
]

unfoldable pub warm_cold : Config → Dek → M (Option GoErr)
unfolding call apply_result return
warm_cold c d = do r ← call c; apply_result c Op.warm (some d) r; return r.err

unfoldable pub warm_flight : Config → Dek → M (Option GoErr)
unfolding warm_cold return locked already_hot
warm_flight c d = do hot ← locked (already_hot d); if hot then return none else warm_cold c d

unfoldable pub warm : Config → Dek → M (Unit {0})
unfolding flight warm_flight clear_probing
warm c d = do flight (λ j. j.err) (warm_flight c d); clear_probing
