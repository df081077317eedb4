-- ===== src/World/Scripts/Restores.antt =====
-- Entering a phase touches no knob but those that the exit resets.
use cmek.Base.{
  ℕ, ◌≡◌, refl, sym, ap, ◌∙◌, arith, Bytes, same, same_iff, List, [], lookup, insert, lookup-insert,
  Option, none, some, Bool, true, false, ◌==◌, ◌&&◌, ◌||◌, if◌then◌else◌, Bool-cases, inl, inr,
}
use native.Mathlib.Decide.{ℕ_discrete}
use cmek.Kms.Fake.{Fake, Kek, revoke, flip, flip_found, same_bool}
use cmek.Core.Types.{Fetch}
use cmek.World.Switches.{Plant, Knobs, kek_of, is_known, is_empty, is_in, set_cache}
use cmek.World.Scripts.{Switch, flip_switch}
use cmek.World.Scripts.Covers.{
  covers_mult, covers_global, covers_fault, covers_fetch, covers_key, caches_at, reaches, disabled,
  is_disabled, PlainBut, inject-Alike, inject-faults,
}

-- What a switch of a phase touches is reset by the exit.
abbrev pub IsCovered : Plant → List Switch → Switch → Type 0
IsCovered w xs (Switch.multiplies i x) = covers_mult i xs ≡ true
IsCovered w xs (Switch.multiplies_all x) = covers_global xs ≡ true
IsCovered w xs (Switch.injects f) =
    (f.tenant ≡ []) × (reaches w f.provider ≡ true → covers_fault w f.provider xs ≡ true)
IsCovered w xs (Switch.caches p on) = (i : ℕ) → caches_at w p i ≡ true → covers_fetch w i xs ≡ true
IsCovered w xs (Switch.revokes i) = covers_key w (kek_of w i) xs ≡ true
IsCovered w xs (Switch.restores i) = ⊥

-- The key's state after a flip.
pub flip_found-disabled :
    (o : Option Kek) (id q : Bytes) (enabled : Bool) (at : ℕ) (f : Fake)
    → same id q ≡ false
    → is_disabled q (flip_found o id enabled at f) ≡ is_disabled q f
unfolding flip_found
flip_found-disabled none id q enabled at f h = refl
flip_found-disabled (some k) id q enabled at f h =
    let kept : lookup q (insert id (record k { enabled = enabled }) f.keks) ≡ lookup q f.keks =
      lookup-insert id q (record k { enabled = enabled }) f.keks ∙ rw h refl in
    elim (Bool-cases (same_bool k.enabled enabled)) [
      | inl b ↦ rw b refl
      | inr b ↦ rw b (ap disabled kept)
    ]

pub found-enabled :
    (o : Option Kek) (id : Bytes) (at : ℕ) (f : Fake)
    → lookup id f.keks ≡ o
    → is_disabled id (flip_found o id true at f) ≡ false
unfolding flip_found
found-enabled none id at f e = rw e refl
found-enabled (some k) id at f e =
    let new : lookup id (insert id (record k { enabled = true }) f.keks)
        ≡ some (record k { enabled = true }) =
      lookup-insert id id (record k { enabled = true }) f.keks ∙ ground (arith, same_iff id id) in
    elim (Bool-cases k.enabled) [
      | inl b ↦ rw (b, same_bool) (ap disabled e ∙ rw b refl)
      | inr b ↦ rw (b, same_bool) (ap disabled new)
    ]

pub flip_found-faults :
    (o : Option Kek) (id : Bytes) (enabled : Bool) (at : ℕ) (f : Fake)
    → ((flip_found o id enabled at f).prov_faults ≡ f.prov_faults)
      × ((flip_found o id enabled at f).kek_faults ≡ f.kek_faults)
unfolding flip_found
flip_found-faults none id enabled at f = (refl, refl)
flip_found-faults (some k) id enabled at f = elim (Bool-cases (same_bool k.enabled enabled)) [
  | inl b ↦ rw b (refl, refl)
  | inr b ↦ rw b (refl, refl)
]

pub set_cache-fetch :
    (w : Plant) (p : Bytes) (on : Bool) (k : Knobs) (i : ℕ)
    → (set_cache w p on k).fetch i
      ≡ (if caches_at w p i then (if on then Fetch.async else Fetch.pass_through) else k.fetch i)
unfolding set_cache
set_cache-fetch w p on k i = go (is_empty p || is_known p w.params.providers)
  where
    go :
        (b : Bool)
        → (if b
              then record k {
                fetch = λ i.
                    if is_in w p i
                    then (if on then Fetch.async else Fetch.pass_through)
                    else k.fetch i;
              }
              else k).fetch
            i
          ≡ (if b && is_in w p i
              then (if on then Fetch.async else Fetch.pass_through)
              else k.fetch i)
    go true = refl
    go false = refl

pub set_cache-Kept :
    (w : Plant) (p : Bytes) (on : Bool) (k : Knobs)
    → ((set_cache w p on k).mult ≡ k.mult)
      × ((set_cache w p on k).global ≡ k.global)
      × ((set_cache w p on k).kms ≡ k.kms)
unfolding set_cache
set_cache-Kept w p on k = go (is_empty p || is_known p w.params.providers)
  where
    go :
        (b : Bool)
        → let k' =
            if b
            then record k {
              fetch = λ i.
                  if is_in w p i
                  then (if on then Fetch.async else Fetch.pass_through)
                  else k.fetch i;
            }
            else k in
          (k'.mult ≡ k.mult) × (k'.global ≡ k.global) × (k'.kms ≡ k.kms)
    go true = (refl, refl, refl)
    go false = (refl, refl, refl)

pub enter-PlainBut :
    (w : Plant) (at : ℕ) (xs : List Switch) (x : Switch) (k : Knobs)
    → IsCovered w xs x
    → PlainBut w xs k
    → PlainBut w xs (flip_switch w at x k)
unfolding flip_switch revoke flip
enter-PlainBut w at xs (Switch.multiplies i x) k c v = record {
  mult = λ j h. elim (ℕ_discrete j i) [
    | yes q ↦
        let b : covers_mult j xs ≡ true = ap (λ n. covers_mult n xs) q ∙ c in
        absurd (ground (arith, b, h))
    | no q ↦ let r : (j == i) ≡ false = ground arith in rw r (v.mult j h)
  ];
  global = v.global;
  fetch = v.fetch;
  faults = v.faults;
  kek_faults = v.kek_faults;
  keys = v.keys;
}
enter-PlainBut w at xs (Switch.multiplies_all x) k c v = record {
  mult = v.mult;
  global = λ h. absurd (ground (arith, c, h));
  fetch = v.fetch;
  faults = v.faults;
  kek_faults = v.kek_faults;
  keys = v.keys;
}
enter-PlainBut w at xs (Switch.injects f) k c v =
    let a = inject-Alike w f k c.0 in
    record {
      mult = λ i h. ap (λ m. m i) a.mult ∙ v.mult i h;
      global = λ h. a.global ∙ v.global h;
      fetch = λ i h. ap (λ m. m i) a.fetch ∙ v.fetch i h;
      faults = λ q h. inject-faults w f k q c.0 (apart q h) ∙ v.faults q h;
      kek_faults = λ q. ap (lookup q) a.kek_faults ∙ v.kek_faults q;
      keys = λ id h. ap (λ m. disabled (lookup id m)) a.keks ∙ v.keys id h;
    }
  where
    apart :
        (q : Bytes)
        → covers_fault w q xs ≡ false
        → (same f.provider q && reaches w f.provider) ≡ false
    apart q h = elim (Bool-cases (same f.provider q && reaches w f.provider)) [
      | inl b ↦
          let e : f.provider ≡ q = ground (arith, same_iff f.provider q) in
          let r : covers_fault w q xs ≡ true =
            ap (λ p. covers_fault w p xs) (sym e) ∙ c.1 (ground arith) in
          absurd (ground (arith, r, h))
      | inr b ↦ b
    ]
enter-PlainBut w at xs (Switch.caches p on) k c v =
    let a = set_cache-Kept w p on k in
    record {
      mult = λ i h. ap (λ m. m i) a.0 ∙ v.mult i h;
      global = λ h. a.1 ∙ v.global h;
      fetch = λ i h.
          let r : caches_at w p i ≡ false = elim (Bool-cases (caches_at w p i)) [
            | inl b ↦ let d : covers_fetch w i xs ≡ true = c i b in absurd (ground (arith, d, h))
            | inr b ↦ b
          ] in
          set_cache-fetch w p on k i ∙ rw r (v.fetch i h);
      faults = λ q h. ap (λ f. lookup q f.prov_faults) a.2 ∙ v.faults q h;
      kek_faults = λ q. ap (λ f. lookup q f.kek_faults) a.2 ∙ v.kek_faults q;
      keys = λ id h. ap (is_disabled id) a.2 ∙ v.keys id h;
    }
enter-PlainBut w at xs (Switch.revokes i) k c v =
    let id = kek_of w i in
    let a = flip_found-faults (lookup id k.kms.keks) id false at k.kms in
    record {
      mult = v.mult;
      global = v.global;
      fetch = v.fetch;
      faults = λ q h. ap (lookup q) a.0 ∙ v.faults q h;
      kek_faults = λ q. ap (lookup q) a.1 ∙ v.kek_faults q;
      keys = λ q h.
          let r : same id q ≡ false = elim (Bool-cases (same id q)) [
            | inl b ↦
                let e : id ≡ q = ground (arith, same_iff id q) in
                let d : covers_key w q xs ≡ true = ap (λ p. covers_key w p xs) (sym e) ∙ c in
                absurd (ground (arith, d, h))
            | inr b ↦ b
          ] in
          flip_found-disabled (lookup id k.kms.keks) id q false at k.kms r ∙ v.keys q h;
    }
enter-PlainBut w at xs (Switch.restores i) k c v = absurd c
