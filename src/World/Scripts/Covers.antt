-- ===== src/World/Scripts/Covers.antt =====
-- What the switches of a script leave alone: every knob but those that its exit resets.
use cmek.Base.{
  ℕ, ◌≡◌, refl, sym, ap, subst, ◌∙◌, arith, Bytes, same, List, [], ◌∷◌, lookup, insert, delete,
  lookup-insert, lookup-delete, Option, none, some, Bool, true, false, not, ◌==◌, ◌&&◌, ◌||◌,
  if◌then◌else◌,
}
use cmek.Kms.Fault.{Fault, Scope, is_zero, no_fault}
use cmek.Kms.Fake.{Fake, Kek, set_fault}
use cmek.Core.Types.{Fetch}
use cmek.World.Switches.{
  Plant, Knobs, FaultRequest, Checked, kek_of, is_known, is_in, is_empty, fault_scope, fault_for,
  install_fault, install_at, inject,
}
use cmek.World.Scripts.{Switch, one}

abbrev pub covers_mult : ℕ → List Switch → Bool
covers_mult i [] = false
covers_mult i (Switch.multiplies j x ∷ xs) = i == j || covers_mult i xs
covers_mult i (_ ∷ xs) = covers_mult i xs

abbrev pub covers_global : List Switch → Bool
covers_global [] = false
covers_global (Switch.multiplies_all x ∷ xs) = true
covers_global (_ ∷ xs) = covers_global xs

abbrev pub reaches : Plant → Bytes → Bool
reaches w p = not (is_empty p) && is_known p w.params.providers

abbrev pub covers_fault : Plant → Bytes → List Switch → Bool
covers_fault w q [] = false
covers_fault w q (Switch.injects f ∷ xs) =
    (same f.provider q && reaches w f.provider) || covers_fault w q xs
covers_fault w q (_ ∷ xs) = covers_fault w q xs

abbrev pub caches_at : Plant → Bytes → ℕ → Bool
caches_at w p i = (is_empty p || is_known p w.params.providers) && is_in w p i

abbrev pub covers_fetch : Plant → ℕ → List Switch → Bool
covers_fetch w i [] = false
covers_fetch w i (Switch.caches p on ∷ xs) = caches_at w p i || covers_fetch w i xs
covers_fetch w i (_ ∷ xs) = covers_fetch w i xs

abbrev pub covers_key : Plant → Bytes → List Switch → Bool
covers_key w id [] = false
covers_key w id (Switch.restores i ∷ xs) = same (kek_of w i) id || covers_key w id xs
covers_key w id (_ ∷ xs) = covers_key w id xs

abbrev pub disabled : Option Kek → Bool
disabled none = false
disabled (some k) = not k.enabled

abbrev pub is_disabled : Bytes → Fake → Bool
is_disabled id f = disabled (lookup id f.keks)

-- Every knob is as in a fresh World, but for those that a list of switches resets.
pub record PlainBut (w : Plant) (xs : List Switch) (k : Knobs) : Type 0 where
  pub mult : (i : ℕ) → covers_mult i xs ≡ false → k.mult i ≡ one
  pub global : covers_global xs ≡ false → k.global ≡ one
  pub fetch : (i : ℕ) → covers_fetch w i xs ≡ false → k.fetch i ≡ Fetch.async
  pub faults : (q : Bytes) → covers_fault w q xs ≡ false → lookup q k.kms.prov_faults ≡ none
  pub kek_faults : (q : Bytes) → lookup q k.kms.kek_faults ≡ none
  pub keys : (id : Bytes) → covers_key w id xs ≡ false → is_disabled id k.kms ≡ false

abbrev provider_scope : Bytes → Scope
provider_scope p = record { provider = p; kek_id = [] }

fault_scope-eq :
    (w : Plant) (f : FaultRequest)
    → f.tenant ≡ []
    → fault_scope w f ≡ (
        if reaches w f.provider
        then Checked.fine (provider_scope f.provider)
        else Checked.bad_fault)
unfolding fault_scope
fault_scope-eq w f e = rw e (go (is_empty f.provider) (is_known f.provider w.params.providers))
  where
    go :
        (b c : Bool)
        → (if not b && not true
            then Checked.bad_fault
            else if not b
            then (if c then Checked.fine (provider_scope f.provider) else Checked.bad_fault)
            else Checked.bad_fault)
          ≡ (if not b && c then Checked.fine (provider_scope f.provider) else Checked.bad_fault)
    go true c = refl
    go false true = refl
    go false false = refl

inject-eq :
    (w : Plant) (f : FaultRequest) (k : Knobs)
    → f.tenant ≡ []
    → inject w f k ≡ (
        if reaches w f.provider
        then install_fault (provider_scope f.provider) k (fault_for f)
        else k)
unfolding inject
inject-eq w f k e =
    ap (λ s. install_at s (fault_for f) k) (fault_scope-eq w f e) ∙ go (reaches w f.provider)
  where
    go :
        (b : Bool)
        → install_at
            (if b then Checked.fine (provider_scope f.provider) else Checked.bad_fault)
            (fault_for f)
            k
          ≡ (if b then install_fault (provider_scope f.provider) k (fault_for f) else k)
    go true = refl
    go false = refl

-- Two sets of knobs that differ at most in the faults of providers.
pub record Alike (k k' : Knobs) : Type 0 where
  pub mult : k'.mult ≡ k.mult
  pub global : k'.global ≡ k.global
  pub fetch : k'.fetch ≡ k.fetch
  pub kek_faults : k'.kms.kek_faults ≡ k.kms.kek_faults
  pub keks : k'.kms.keks ≡ k.kms.keks

Alike-refl : (k : Knobs) → Alike k k
Alike-refl k = record { mult = refl; global = refl; fetch = refl; kek_faults = refl; keks = refl }

install_fault-Alike :
    (p : Bytes) (k : Knobs) (r : Checked Fault) → Alike k (install_fault (provider_scope p) k r)
unfolding set_fault same
install_fault-Alike p k (Checked.fine fault) = record {
  mult = refl;
  global = refl;
  fetch = refl;
  kek_faults = refl;
  keks = refl;
}
install_fault-Alike p k Checked.bad_fault = Alike-refl k
install_fault-Alike p k Checked.unknown_tenant = Alike-refl k

pub inject-Alike :
    (w : Plant) (f : FaultRequest) (k : Knobs) → f.tenant ≡ [] → Alike k (inject w f k)
inject-Alike w f k e = subst (Alike k) (sym (inject-eq w f k e)) (go (reaches w f.provider))
  where
    go :
        (b : Bool)
        → Alike k (if b then install_fault (provider_scope f.provider) k (fault_for f) else k)
    go true = install_fault-Alike f.provider k (fault_for f)
    go false = Alike-refl k

install_fault-faults :
    (p q : Bytes) (k : Knobs) (r : Checked Fault)
    → same p q ≡ false
    → lookup q (install_fault (provider_scope p) k r).kms.prov_faults ≡ lookup q k.kms.prov_faults
unfolding set_fault same
install_fault-faults p q k (Checked.fine fault) h = go (is_zero fault)
  where
    go :
        (b : Bool)
        → lookup q (if b then delete p k.kms.prov_faults else insert p fault k.kms.prov_faults)
          ≡ lookup q k.kms.prov_faults
    go true = lookup-delete p q k.kms.prov_faults ∙ rw h refl
    go false = lookup-insert p q fault k.kms.prov_faults ∙ rw h refl
install_fault-faults p q k Checked.bad_fault h = refl
install_fault-faults p q k Checked.unknown_tenant h = refl

-- A request leaves the faults of the other providers alone.
pub inject-faults :
    (w : Plant) (f : FaultRequest) (k : Knobs) (q : Bytes)
    → f.tenant ≡ []
    → (same f.provider q && reaches w f.provider) ≡ false
    → lookup q (inject w f k).kms.prov_faults ≡ lookup q k.kms.prov_faults
inject-faults w f k q e h =
    subst (λ k'. lookup q k'.kms.prov_faults ≡ lookup q k.kms.prov_faults) (sym (inject-eq w f k e))
      (go (reaches w f.provider) h)
  where
    go :
        (b : Bool)
        → (same f.provider q && b) ≡ false
        → lookup q
            (if b
              then install_fault (provider_scope f.provider) k (fault_for f)
              else k).kms.prov_faults
          ≡ lookup q k.kms.prov_faults
    go true g = install_fault-faults f.provider q k (fault_for f) (ground arith)
    go false g = refl

-- A request without a fault clears its provider.
pub inject-clears :
    (w : Plant) (f : FaultRequest) (k : Knobs) (q : Bytes)
    → f.tenant ≡ []
    → fault_for f ≡ Checked.fine no_fault
    → lookup q (inject w f k).kms.prov_faults
      ≡ (if same f.provider q && reaches w f.provider then none else lookup q k.kms.prov_faults)
unfolding set_fault same is_zero
inject-clears w f k q e h =
    subst
      (λ k'.
        lookup q k'.kms.prov_faults
        ≡ (if same f.provider q && reaches w f.provider then none else lookup q k.kms.prov_faults))
      (sym (inject-eq w f k e)) (go (reaches w f.provider))
  where
    go :
        (b : Bool)
        → lookup q
            (if b
              then install_fault (provider_scope f.provider) k (fault_for f)
              else k).kms.prov_faults
          ≡ (if same f.provider q && b then none else lookup q k.kms.prov_faults)
    go true = rw h (lookup-delete f.provider q k.kms.prov_faults ∙ ground arith)
    go false = ground arith
