-- ===== src/World/Scripts/Leaving.antt =====
-- The exit of a script resets, switch by switch, what its phases have touched.
use cmek.Base.{
  ℕ, zero, suc, ◌≡◌, refl, ap, subst, ◌∙◌, arith, same, same_iff, List, [], ◌∷◌, All, take, lookup,
  true, false, ◌==◌, ◌&&◌, Bool-cases, inl, inr,
}
use cmek.Kms.Fault.{no_fault}
use cmek.Kms.Fake.{restore, flip, flip_found}
use cmek.World.Switches.{Plant, Knobs, Checked, kek_of, fault_for}
use cmek.World.Scripts.{Switch, flip_switch, flip_all, enter_all, one}
use cmek.World.Scripts.Covers.{
  caches_at, reaches, disabled, is_disabled, PlainBut, inject-Alike, inject-clears,
}
use cmek.World.Scripts.Restores.{
  IsCovered, flip_found-disabled, found-enabled, flip_found-faults, set_cache-fetch, set_cache-Kept,
  enter-PlainBut,
}

-- A switch that sets what a fresh World has.
abbrev pub IsReset : Switch → Type 0
IsReset (Switch.multiplies i x) = x ≡ one
IsReset (Switch.multiplies_all x) = x ≡ one
IsReset (Switch.injects f) = (f.tenant ≡ []) × (fault_for f ≡ Checked.fine no_fault)
IsReset (Switch.caches p on) = on ≡ true
IsReset (Switch.revokes i) = ⊥
IsReset (Switch.restores i) = Unit {0}

-- One switch of the exit takes what it resets off the list of what is left to reset.
reset-PlainBut :
    (w : Plant) (at : ℕ) (x : Switch) (xs : List Switch) (k : Knobs)
    → IsReset x
    → PlainBut w (x ∷ xs) k
    → PlainBut w xs (flip_switch w at x k)
unfolding flip_switch restore flip
reset-PlainBut w at (Switch.multiplies i x) xs k c v = record {
  mult = λ j h. elim (Bool-cases (j == i)) [ inl b ↦ rw b c | inr b ↦ rw b (v.mult j (rw b h)) ];
  global = v.global;
  fetch = v.fetch;
  faults = v.faults;
  kek_faults = v.kek_faults;
  keys = v.keys;
}
reset-PlainBut w at (Switch.multiplies_all x) xs k c v = record {
  mult = v.mult;
  global = λ h. c;
  fetch = v.fetch;
  faults = v.faults;
  kek_faults = v.kek_faults;
  keys = v.keys;
}
reset-PlainBut w at (Switch.injects f) xs k c v =
    let a = inject-Alike w f k c.0 in
    record {
      mult = λ i h. ap (λ m. m i) a.mult ∙ v.mult i h;
      global = λ h. a.global ∙ v.global h;
      fetch = λ i h. ap (λ m. m i) a.fetch ∙ v.fetch i h;
      faults = λ q h.
          inject-clears w f k q c.0 c.1
          ∙ elim (Bool-cases (same f.provider q && reaches w f.provider)) [
            | inl b ↦ rw b refl
            | inr b ↦ rw b (v.faults q (rw b h))
          ];
      kek_faults = λ q. ap (lookup q) a.kek_faults ∙ v.kek_faults q;
      keys = λ id h. ap (λ m. disabled (lookup id m)) a.keks ∙ v.keys id h;
    }
reset-PlainBut w at (Switch.caches p on) xs k c v =
    let a = set_cache-Kept w p on k in
    record {
      mult = λ i h. ap (λ m. m i) a.0 ∙ v.mult i h;
      global = λ h. a.1 ∙ v.global h;
      fetch = λ i h. set_cache-fetch w p on k i ∙ elim (Bool-cases (caches_at w p i)) [
        | inl b ↦ rw (b, c) refl
        | inr b ↦ rw b (v.fetch i (rw b h))
      ];
      faults = λ q h. ap (λ f. lookup q f.prov_faults) a.2 ∙ v.faults q h;
      kek_faults = λ q. ap (λ f. lookup q f.kek_faults) a.2 ∙ v.kek_faults q;
      keys = λ id h. ap (is_disabled id) a.2 ∙ v.keys id h;
    }
reset-PlainBut w at (Switch.revokes i) xs k c v = absurd c
reset-PlainBut w at (Switch.restores i) xs k c v =
    let id = kek_of w i in
    let a = flip_found-faults (lookup id k.kms.keks) id true at k.kms in
    record {
      mult = v.mult;
      global = v.global;
      fetch = v.fetch;
      faults = λ q h. ap (lookup q) a.0 ∙ v.faults q h;
      kek_faults = λ q. ap (lookup q) a.1 ∙ v.kek_faults q;
      keys = λ q h. elim (Bool-cases (same id q)) [
        | inl b ↦
            let e : id ≡ q = ground (arith, same_iff id q) in
            subst (λ p. is_disabled p (flip_found (lookup id k.kms.keks) id true at k.kms) ≡ false)
              e (found-enabled (lookup id k.kms.keks) id at k.kms refl)
        | inr b ↦
            flip_found-disabled (lookup id k.kms.keks) id q true at k.kms b ∙ v.keys q (rw b h)
      ];
    }

flip_all-PlainBut :
    (w : Plant) (at : ℕ) (xs ys : List Switch) (k : Knobs)
    → All (IsCovered w xs) ys
    → PlainBut w xs k
    → PlainBut w xs (flip_all w at ys k)
unfolding flip_all
flip_all-PlainBut w at xs [] k c v = v
flip_all-PlainBut w at xs (y ∷ ys) k c v =
    flip_all-PlainBut w at xs ys (flip_switch w at y k) c.1 (enter-PlainBut w at xs y k c.0 v)

pub enter_all-PlainBut :
    (w : Plant) (at : ℕ) (xs : List Switch) (n : ℕ) (ps : List (List Switch)) (k : Knobs)
    → All (All (IsCovered w xs)) ps
    → PlainBut w xs k
    → PlainBut w xs (enter_all w at (take n ps) k)
unfolding enter_all
enter_all-PlainBut w at xs zero ps k c v = v
enter_all-PlainBut w at xs (suc n) [] k c v = v
enter_all-PlainBut w at xs (suc n) (p ∷ ps) k c v =
    enter_all-PlainBut w at xs n ps (flip_all w at p k) c.1 (flip_all-PlainBut w at xs p k c.0 v)

pub exit-PlainBut :
    (w : Plant) (at : ℕ) (xs : List Switch) (k : Knobs)
    → All IsReset xs
    → PlainBut w xs k
    → PlainBut w [] (flip_all w at xs k)
unfolding flip_all
exit-PlainBut w at [] k c v = v
exit-PlainBut w at (x ∷ xs) k c v =
    exit-PlainBut w at xs (flip_switch w at x k) c.1 (reset-PlainBut w at x xs k c.0 v)
