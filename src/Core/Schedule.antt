-- ===== src/Core/Schedule.antt =====
-- All goroutines of a tenant at once: any interleaving of their critical sections.
use cmek.Base.{ℕ, Bytes, List, [], ◌∷◌, Option, none, some, Bool, refl, arith, All}
use cmek.Kms.Errors.{GoErr}
use cmek.Core.Types.{Config, Dek, Fetch, Tenant, Outcome, Op, new_tenant}
use cmek.Core.Tenant.{set_fetch}
use cmek.Core.Apply.{apply}
use cmek.Core.Invariant.{IsFreshOf, new_tenant-IsSound}
use cmek.Core.Bound.{Inv, IsAnswer, apply-Inv}
use cmek.Core.Fetcher.{Entry, open_call, leave_call, allocate, already_hot, stop_probing}
use cmek.Core.Manager.{direct_handle, enter_encrypt, route, leave_cold}
use cmek.Core.Delivery.{enter_decrypt, check_again, hot_now, want_warm}
use cmek.Core.Sweep.{tick}
use cmek.Core.Renewal.{Inv-Same, open_call-Same, leave_call-Same}
use cmek.Core.Flights.{allocate-Same, already_hot-Same}
use cmek.Core.Handles.{
  direct_handle-Kept, route-Kept, leave_cold-Kept, enter_encrypt-Kept, marked-Inv,
}
use cmek.Core.Decrypt.{enter_decrypt-Kept, check_again-Kept}
use cmek.Core.Sections.{tick-Inv, set_fetch-Inv, hot_now-Inv, want_warm-Inv}

-- One critical section of some goroutine, with what it has read before it took the lock.
pub data Turn : Type 0 where
  applies : ℕ → ℕ → Op → Option Dek → Outcome → Turn
  opens_call : Turn
  leaves_call : Entry → Turn
  allocates : ℕ → Outcome → Turn
  looks_hot : Dek → Turn
  stops_probing : Turn
  enters_encrypt : ℕ → Turn
  checks_encrypt : ℕ → Turn
  leaves_cold : ℕ → Option GoErr → Turn
  hands_direct : ℕ → Option Dek → Option ℕ → Bool → Turn
  enters_decrypt : Bytes → ℕ → Turn
  checks_decrypt : Dek → ℕ → Turn
  asks_hot : ℕ → Turn
  asks_warm : Bytes → ℕ → Turn
  sweeps : ℕ → Turn
  switches : Fetch → ℕ → Turn

unfoldable pub turn : Config → Turn → Tenant → Tenant
turn c (Turn.applies now u op d r) t = apply c now u op d r t
turn c Turn.opens_call t = (open_call c t).1
turn c (Turn.leaves_call n) t = (leave_call n t).1
turn c (Turn.allocates now r) t = (allocate now r t).1
turn c (Turn.looks_hot d) t = (already_hot d t).1
turn c Turn.stops_probing t = (stop_probing t).1
turn c (Turn.enters_encrypt now) t = (enter_encrypt c now t).1
turn c (Turn.checks_encrypt now) t = (route c now t).1
turn c (Turn.leaves_cold now e) t = (leave_cold c now e t).1
turn c (Turn.hands_direct now d prim count) t = (direct_handle now d prim count t).1
turn c (Turn.enters_decrypt id now) t = (enter_decrypt id now t).1
turn c (Turn.checks_decrypt d now) t = (check_again d now t).1
turn c (Turn.asks_hot now) t = (hot_now now t).1
turn c (Turn.asks_warm id now) t = (want_warm id now t).1
turn c (Turn.sweeps now) t = (tick c now t).1
turn c (Turn.switches mode now) t = set_fetch mode now t

unfoldable pub turns : Config → List Turn → Tenant → Tenant
unfolding turn
turns c [] t = t
turns c (x ∷ xs) t = turns c xs (turn c x t)

-- What a turn brings into the tenant from outside is an outcome that `call` can give.
abbrev pub IsTurn : Option ℕ → Turn → Type 0
IsTurn limit (Turn.applies now u op d r) = IsAnswer limit r × IsFreshOf op d
IsTurn limit _ = Unit {0}

turn-Inv :
    (c : Config) (limit : Option ℕ) (x : Turn) (t : Tenant)
    → IsTurn limit x
    → Inv c limit t
    → Inv c limit (turn c x t)
unfolding turn
turn-Inv c limit (Turn.applies now u op d r) t h v = apply-Inv c limit now u op d r t h.0 h.1 v
turn-Inv c limit Turn.opens_call t h v = Inv-Same c limit t (open_call c t).1 (open_call-Same c t) v
turn-Inv c limit (Turn.leaves_call n) t h v =
    Inv-Same c limit t (leave_call n t).1 (leave_call-Same n t) v
turn-Inv c limit (Turn.allocates now r) t h v =
    Inv-Same c limit t (allocate now r t).1 (allocate-Same now r t) v
turn-Inv c limit (Turn.looks_hot d) t h v =
    Inv-Same c limit t (already_hot d t).1 (already_hot-Same d t) v
turn-Inv c limit Turn.stops_probing t h v = unfold stop_probing in marked-Inv c limit t Bool.false v
turn-Inv c limit (Turn.enters_encrypt now) t h v = (enter_encrypt-Kept c limit now t v).inv
turn-Inv c limit (Turn.checks_encrypt now) t h v = (route-Kept c limit now t v).inv
turn-Inv c limit (Turn.leaves_cold now e) t h v = (leave_cold-Kept c limit now e t v).inv
turn-Inv c limit (Turn.hands_direct now d prim count) t h v =
    (direct_handle-Kept c limit now d prim count t v).inv
turn-Inv c limit (Turn.enters_decrypt id now) t h v = (enter_decrypt-Kept c limit id now t v).inv
turn-Inv c limit (Turn.checks_decrypt d now) t h v = (check_again-Kept c limit d now t v).inv
turn-Inv c limit (Turn.asks_hot now) t h v = hot_now-Inv c limit now t v
turn-Inv c limit (Turn.asks_warm id now) t h v = want_warm-Inv c limit id now t v
turn-Inv c limit (Turn.sweeps now) t h v = tick-Inv c limit now t v
turn-Inv c limit (Turn.switches mode now) t h v = set_fetch-Inv c limit mode now t v

-- Every interleaving of the goroutines' sections keeps the tenant's invariant, if the outcomes
-- that are applied are such as a call gives.
pub turns-Inv :
    (c : Config) (limit : Option ℕ) (xs : List Turn) (t : Tenant)
    → All (IsTurn limit) xs
    → Inv c limit t
    → Inv c limit (turns c xs t)
unfolding turns
turns-Inv c limit [] t h v = v
turns-Inv c limit (x ∷ xs) t h v =
    turns-Inv c limit xs (turn c x t) h.1 (turn-Inv c limit x t h.0 v)

pub new_tenant-Inv :
    (c : Config) (limit : Option ℕ) (idx : ℕ) (id provider kek_id : Bytes)
    → Inv c limit (new_tenant c idx id provider kek_id)
unfolding new_tenant
new_tenant-Inv c none idx id provider kek_id = record {
  sound = unfold new_tenant in new_tenant-IsSound c idx id provider kek_id;
  ttl = refl;
  early = refl;
  sent = tt;
}
new_tenant-Inv c (some r) idx id provider kek_id = record {
  sound = unfold new_tenant in new_tenant-IsSound c idx id provider kek_id;
  ttl = refl;
  early = refl;
  sent = omega arith;
}
