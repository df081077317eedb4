-- ===== src/Core/Sections.antt =====
-- The sweep, the mode switch and the scheduler's questions keep the invariant of `Core.Bound`.
use cmek.Base.{ℕ, Bytes, Map, [], ◌∷◌, Option, none, some, false, ◌≡◌, refl, arith, ◌≤◌, ap}
use cmek.Core.Lease.{usable}
use cmek.Core.Types.{Config, Dek, Fetch, Tenant}
use cmek.Core.Texts.{Word}
use cmek.Core.Tenant.{hot_deks, hot, audit, purge_line, cache_off, set_fetch}
use cmek.Core.Invariant.{IsSound, hot-cool}
use cmek.Core.Bound.{Inv}
use cmek.Core.Delivery.{hot_cached, hot_now, warm_known, want_warm}
use cmek.Core.Sweep.{lapse, age_deks, age_lines, age, due_warm, start_warm, due, tick}
use cmek.Core.Renewal.{Same, Inv-Same}

-- A section that leaves the lease alone keeps the bound on it.
Inv-of_sound :
    (c : Config) (limit : Option ℕ) (t u : Tenant)
    → u.lease ≡ t.lease
    → Inv c limit t
    → IsSound u
    → Inv c limit u
Inv-of_sound c none t u e v s = ground arith
Inv-of_sound c (some r) t u e v s = ground arith

set_fetch-IsSound :
    (mode : Fetch) (now : ℕ) (t : Tenant) → IsSound t → IsSound (set_fetch mode now t)
unfolding set_fetch cache_off
set_fetch-IsSound mode now t v = ground (arith, hot-cool t.deks)

set_fetch-lease : (mode : Fetch) (now : ℕ) (t : Tenant) → (set_fetch mode now t).lease ≡ t.lease
unfolding set_fetch cache_off
set_fetch-lease mode now t = ground arith

lapse-IsSound : (now : ℕ) (t : Tenant) → IsSound t → IsSound (lapse now t)
unfolding lapse
lapse-IsSound now t v = ground (arith, hot-cool t.deks)

lapse-lease : (now : ℕ) (t : Tenant) → (lapse now t).lease ≡ t.lease
unfolding lapse
lapse-lease now t = ground arith

hot-age_deks-le :
    (c : Config) (now : ℕ) (a : Option Bytes) (m : Map Dek)
    → hot_deks (age_deks c now a m) ≤ hot_deks m
unfolding age_deks hot_deks
hot-age_deks-le c now a [] = omega arith
hot-age_deks-le c now a ((k, d) ∷ m) = ground (arith, hot-age_deks-le c now a m)

-- The lines of the ageing loop touch the audit log alone.
age_lines-Same :
    (c : Config) (now : ℕ) (t : Tenant) (m : Map Dek) (u : Tenant) → Same u (age_lines c now t m u)
unfolding age_lines
age_lines-Same c now t [] u = (refl, refl, refl, refl, refl, refl)
age_lines-Same c now t ((k, d) ∷ m) u = ground (
  arith,
  age_lines-Same c now t m u,
  age_lines-Same c now t m (audit (purge_line now t Word.aged d.id 1) u),
)

IsSound-colder :
    (t : Tenant) (m : Map Dek)
    → hot_deks m ≤ hot_deks t.deks
    → IsSound t
    → IsSound (record t { deks = m })
IsSound-colder t m h v = ground arith

age-Inv :
    (c : Config) (limit : Option ℕ) (now : ℕ) (t : Tenant)
    → Inv c limit t
    → Inv c limit (age c now t)
unfolding age
age-Inv c limit now t v =
    let m = age_deks c now t.active t.deks in
    let u : Tenant = record t { deks = m } in
    Inv-Same c limit u (age_lines c now t t.deks u) (age_lines-Same c now t t.deks u) (
      Inv-of_sound c limit t u refl v
        (IsSound-colder t m (hot-age_deks-le c now t.active t.deks) v.sound))

start_warm-Same : (t : Tenant) (d : Option Dek) → Same t (start_warm t d).1
unfolding start_warm
start_warm-Same t none = (refl, refl, refl, refl, refl, refl)
start_warm-Same t (some d) = (refl, refl, refl, refl, refl, refl)

due-Same : (now : ℕ) (t : Tenant) → Same t (due now t).1
unfolding due
due-Same now t = ground (arith, start_warm-Same t (due_warm now t.pending t.deks))

-- One sweep of a tenant keeps the invariant.
pub tick-Inv :
    (c : Config) (limit : Option ℕ) (now : ℕ) (t : Tenant)
    → Inv c limit t
    → Inv c limit (tick c now t).1
unfolding tick
tick-Inv c limit now t v =
    let u = lapse now t in
    let v' = Inv-of_sound c limit t u (lapse-lease now t) v (lapse-IsSound now t v.sound) in
    Inv-Same c limit (age c now u) (due now (age c now u)).1 (due-Same now (age c now u))
      (age-Inv c limit now u v')

-- So does a switch of the fetch mode, by any of its three entrances.
pub set_fetch-Inv :
    (c : Config) (limit : Option ℕ) (mode : Fetch) (now : ℕ) (t : Tenant)
    → Inv c limit t
    → Inv c limit (set_fetch mode now t)
set_fetch-Inv c limit mode now t v =
    Inv-of_sound c limit t (set_fetch mode now t) (set_fetch-lease mode now t) v
      (set_fetch-IsSound mode now t v.sound)

hot_now-Same : (now : ℕ) (t : Tenant) → Same t (hot_now now t).1
unfolding hot_now hot_cached
hot_now-Same now t = ground arith

want_warm-Same : (id : Bytes) (now : ℕ) (t : Tenant) → Same t (want_warm id now t).1
unfolding want_warm warm_known
want_warm-Same id now t = ground arith

pub hot_now-Inv :
    (c : Config) (limit : Option ℕ) (now : ℕ) (t : Tenant)
    → Inv c limit t
    → Inv c limit (hot_now now t).1
hot_now-Inv c limit now t v = Inv-Same c limit t (hot_now now t).1 (hot_now-Same now t) v

pub want_warm-Inv :
    (c : Config) (limit : Option ℕ) (id : Bytes) (now : ℕ) (t : Tenant)
    → Inv c limit t
    → Inv c limit (want_warm id now t).1
want_warm-Inv c limit id now t v =
    Inv-Same c limit t (want_warm id now t).1 (want_warm-Same id now t) v

hot-age_lines : (c : Config) (now : ℕ) (t : Tenant) → hot (age c now t) ≤ hot t
unfolding age hot
hot-age_lines c now t =
    let u : Tenant = record t { deks = age_deks c now t.active t.deks } in
    omega (
      arith,
      ap hot_deks (age_lines-Same c now t t.deks u).1,
      hot-age_deks-le c now t.active t.deks,
    )

hot-lapse : (now : ℕ) (t : Tenant) → IsSound t → usable t.lease now ≡ false → hot (lapse now t) ≡ 0
unfolding lapse hot
hot-lapse now t v l = ground (arith, hot-cool t.deks)

-- After a sweep at `now`, a tenant whose lease is not usable at `now` has no plaintext key left in
-- the cache.
pub tick-lapsed_cold :
    (c : Config) (now : ℕ) (t : Tenant)
    → IsSound t
    → usable t.lease now ≡ false
    → hot (tick c now t).1 ≡ 0
unfolding tick
tick-lapsed_cold c now t v l =
    let u = age c now (lapse now t) in
    omega (arith, same_hot u, hot-age_lines c now (lapse now t), hot-lapse now t v l)
  where
    same_hot : (u : Tenant) → hot (due now u).1 ≡ hot u
    same_hot u = unfold hot in ap hot_deks (due-Same now u).1
