-- ===== src/World/Scripts/Fresh.antt =====
-- Each of the eight scenarios leaves a fresh World as it found it.
use cmek.Base.{
  ℕ, ◌≡◌, refl, sym, subst, arith, Bytes, codes, same, same_iff, List, [], ◌∷◌, ◌++◌, All, map,
  take, lookup, none, true, false, Bool-cases, inl, inr,
}
use cmek.Core.Types.{Fetch}
use cmek.World.Switches.{Plant, Knobs, kek_of, is_known, fault_for, fault_mode, fault_level}
use cmek.World.Scripts.{
  Switch, Script, Name, script, run_script, enter_all, one, request, latency_all, at_rank,
}
use cmek.World.Scripts.Covers.{covers_fault, reaches, is_disabled, PlainBut}
use cmek.World.Scripts.Restores.{IsCovered}
use cmek.World.Scripts.Leaving.{IsReset, enter_all-PlainBut, exit-PlainBut}

-- Rates as built, the cache on in the design that ships, no fault, and no key disabled.
abbrev pub IsFresh : Knobs → Type 0
IsFresh k =
    ((i : ℕ) → k.mult i ≡ one)
    × (k.global ≡ one)
    × ((i : ℕ) → k.fetch i ≡ Fetch.async)
    × ((q : Bytes) → lookup q k.kms.prov_faults ≡ none)
    × ((q : Bytes) → lookup q k.kms.kek_faults ≡ none)
    × ((id : Bytes) → is_disabled id k.kms ≡ false)

run-IsFresh :
    (w : Plant) (at : ℕ) (s : Script) (n : ℕ) (k : Knobs)
    → All (All (IsCovered w s.exit)) s.phases
    → All IsReset s.exit
    → IsFresh k
    → IsFresh (run_script w at s n k)
unfolding run_script
run-IsFresh w at s n k c r f =
    let before : PlainBut w s.exit k = record {
      mult = λ i h. f.0 i;
      global = λ h. f.1;
      fetch = λ i h. f.2 i;
      faults = λ q h. f.3 q;
      kek_faults = f.4;
      keys = λ id h. f.5 id;
    } in
    let v =
      exit-PlainBut w at s.exit (enter_all w at (take n s.phases) k) r
        (enter_all-PlainBut w at s.exit n s.phases k c before) in
    (
      λ i. v.mult i refl,
      v.global refl,
      λ i. v.fetch i refl,
      λ q. v.faults q refl,
      v.kek_faults,
      λ id. v.keys id refl,
    )

abbrev to_provider : ℕ → ℕ → Bytes → Switch
to_provider p50 p99 p = Switch.injects (request p [] p50 p99)

-- A request without latency clears a fault, with the mode left out or "ok".
clear-IsReset : (p : Bytes) → IsReset (to_provider 0 0 p)
unfolding fault_for fault_mode fault_level
clear-IsReset p = (refl, refl)

ok-IsReset : (p : Bytes) → IsReset (Switch.injects (request p (codes "ok") 0 0))
unfolding fault_for fault_mode fault_level same
ok-IsReset p = (refl, refl)

own-covers :
    (w : Plant) (p mode : Bytes)
    → reaches w p ≡ true
    → covers_fault w p (Switch.injects (request p mode 0 0) ∷ []) ≡ true
own-covers w p mode r = ground (arith, same_iff p p, r)

clears-IsReset : (ps : List Bytes) → All IsReset (map (to_provider 0 0) ps)
clears-IsReset [] = tt
clears-IsReset (p ∷ ps) = (clear-IsReset p, clears-IsReset ps)

clears-covers :
    (w : Plant) (p : Bytes) (ps : List Bytes)
    → is_known p ps ≡ true
    → reaches w p ≡ true
    → covers_fault w p (map (to_provider 0 0) ps) ≡ true
unfolding is_known
clears-covers w p [] h r = cc
clears-covers w p (q ∷ ps) h r = elim (Bool-cases (same q p)) [
  | inl b ↦
      let e : p ≡ q = sym (ground (arith, same_iff q p)) in
      let d : reaches w q ≡ true = subst (λ j. reaches w j ≡ true) e r in ground (arith, b, d)
  | inr b ↦
      let d : is_known p ps ≡ true = ground (arith, h, b) in
      let c = clears-covers w p ps d r in ground (arith, b, c)
]

latency-IsCovered :
    (w : Plant) (xs : List Switch) (p50 p99 : ℕ) (ps : List Bytes) (last : Switch)
    → ((p : Bytes) → reaches w p ≡ true → covers_fault w p xs ≡ true)
    → IsCovered w xs last
    → All (IsCovered w xs) (map (to_provider p50 p99) ps ++ last ∷ [])
latency-IsCovered w xs p50 p99 [] last c d = (d, tt)
latency-IsCovered w xs p50 p99 (p ∷ ps) last c d =
    ((refl, λ r. c p r), latency-IsCovered w xs p50 p99 ps last c d)

-- Every scenario restores what it changed: from a fresh World, a run that has entered any number
-- of its phases when it ends, by itself or by a stop, leaves all rates, the cache, the faults and
-- the keys as they were, for every setting of the World's parameters.
pub run_script-IsFresh :
    (w : Plant) (at : ℕ) (name : Name) (n : ℕ) (k : Knobs)
    → IsFresh k
    → IsFresh (run_script w at (script w name) n k)
unfolding script latency_all
run_script-IsFresh w at Name.tenant_surge n k f =
    run-IsFresh w at (script w Name.tenant_surge) n k (((ground arith, tt), tt)) (refl, tt) f
run_script-IsFresh w at Name.global_surge n k f =
    run-IsFresh w at (script w Name.global_surge) n k ((refl, tt), tt) (refl, tt) f
run_script-IsFresh w at Name.provider_blip n k f =
    let p = w.params.outage_provider in
    run-IsFresh w at (script w Name.provider_blip) n k
      (((refl, own-covers w p (codes "ok")), tt), tt) (ok-IsReset p, tt) f
run_script-IsFresh w at Name.provider_outage n k f =
    let p = w.params.outage_provider in
    run-IsFresh w at (script w Name.provider_outage) n k
      (((refl, own-covers w p (codes "ok")), tt), tt) (ok-IsReset p, tt) f
run_script-IsFresh w at Name.slow_kms n k f =
    let p = w.params.slow_provider in
    run-IsFresh w at (script w Name.slow_kms) n k (((refl, own-covers w p (codes "ok")), tt), tt)
      (ok-IsReset p, tt) f
run_script-IsFresh w at Name.no_cache n k f =
    let s = script w Name.no_cache in
    let p = w.params.no_cache_provider in
    let cov : (q : Bytes) → reaches w q ≡ true → covers_fault w q s.exit ≡ true =
      λ q r. clears-covers w q w.params.providers (ground (arith, r)) r in
    run-IsFresh w at s n k
      (
        latency-IsCovered w s.exit w.params.no_cache_kms_p50 w.params.no_cache_kms_p99
            w.params.providers (Switch.caches p false) cov (λ i h. ground (arith, h)),
        (((refl, cov p), tt), (((refl, cov p), tt), tt)),
      )
      (refl, clears-IsReset w.params.providers) f
run_script-IsFresh w at Name.no_cache_surge n k f =
    let s = script w Name.no_cache_surge in
    let cov : (q : Bytes) → reaches w q ≡ true → covers_fault w q s.exit ≡ true =
      λ q r. clears-covers w q w.params.providers (ground (arith, r)) r in
    run-IsFresh w at s n k
      (
        latency-IsCovered w s.exit w.params.no_cache_kms_p50 w.params.no_cache_kms_p99
            w.params.providers (Switch.caches [] false) cov (λ i h. ground (arith, h)),
        ((refl, tt), ((refl, tt), tt)),
      )
      (refl, (refl, clears-IsReset w.params.providers)) f
run_script-IsFresh w at Name.key_revocation n k f =
    run-IsFresh w at (script w Name.key_revocation) n k
      (
        (
          ground (
            arith,
            same_iff (kek_of w (at_rank w w.params.revoke_tenant_rank))
                (kek_of w (at_rank w w.params.revoke_tenant_rank)),
          ),
          tt,
        ),
        tt,
      )
      (tt, tt) f
