-- ===== src/Kms/RoundTrip.antt =====
-- The code and the text of a key-service error are read back from any text that ends in it.
use mathlib.Core.List.{append_assoc}
use cmek.Base.{
  ℕ, suc, ◌+◌, ◌≤◌, ◌≡◌, refl, Bytes, codes, index, has_prefix, [], ◌∷◌, ◌++◌, none, some, drop,
  length, length-append, arith, ◌≢◌, All, true,
}
use cmek.Kms.Errors.{Code, code_text, KmsError, error_text}
use cmek.Kms.Frame.{all_codes, first_code, frame_at, frame_from, frame, code_from_text, cause}

has_prefix-append : (a b p : Bytes) → length p ≤ length a → has_prefix (a ++ b) p ≡ has_prefix a p
unfolding has_prefix
has_prefix-append a b [] h = refl
has_prefix-append [] b (c ∷ p) h = absurd (omega arith)
has_prefix-append (x ∷ a) b (c ∷ p) h = ground (arith, has_prefix-append a b p)

has_prefix_self : (p x : Bytes) → has_prefix (p ++ x) p ≡ true
unfolding has_prefix
has_prefix_self [] x = refl
has_prefix_self (c ∷ p) x = ground (arith, has_prefix_self p x)

drop-length : (a b : Bytes) → drop (length a) (a ++ b) ≡ b
drop-length [] b = refl
drop-length (x ∷ a) b = drop-length a b

-- The bytes behind the first `suc (length q)` do not matter to a test for `p`.
has_prefix-shift :
    (a p q x : Bytes) (c : ℕ)
    → p ≡ q ++ c ∷ []
    → length p ≤ length (a ++ q)
    → has_prefix (a ++ (p ++ x)) p ≡ has_prefix (a ++ q) p
has_prefix-shift a p q x c e h =
    let same_text : a ++ (p ++ x) ≡ (a ++ q) ++ (c ∷ x) = simp (e, append_assoc) in
    rw same_text (has_prefix-append (a ++ q) (c ∷ x) p h)

length_of_pattern : (p q : Bytes) (c : ℕ) → p ≡ q ++ c ∷ [] → length p ≡ suc (length q)
length_of_pattern p q c e = rw e (omega (arith, length-append q (c ∷ [])))

-- No match starts inside `a`, so the first one stands right behind it.
index-append :
    (a p q x : Bytes) (c : ℕ)
    → p ≡ q ++ c ∷ []
    → index (a ++ q) p ≡ none
    → index (a ++ (p ++ x)) p ≡ some (length a)
unfolding index
index-append [] [] q x c e h = absurd (omega (arith, length_of_pattern [] q c e))
index-append [] (d ∷ p) q x c e h = ground (arith, has_prefix_self (d ∷ p) x)
index-append (y ∷ a) p q x c e h = ground (
  arith,
  has_prefix-shift (y ∷ a) p q x c,
  index-append a p q x c,
  length_of_pattern p q c,
  length-append a q,
)

-- A text with no colon in it, followed by ": ".
index-colon :
    (p x : Bytes)
    → All (λ b. b ≢ b':') p
    → index (p ++ (codes ": " ++ x)) (codes ": ") ≡ some (length p)
unfolding index has_prefix
index-colon [] x h = refl
index-colon (b ∷ p) x h = ground (arith, index-colon p x h.1)

first_code_text :
    (c : Code) (x : Bytes) → first_code (code_text c ++ (codes ": " ++ x)) all_codes ≡ some c
unfolding first_code
first_code_text Code.timeout x = refl
first_code_text Code.unavailable x = refl
first_code_text Code.access_denied x = refl
first_code_text Code.key_disabled x = refl

-- Nothing in `pre` looks like the start of a frame.
abbrev pub IsPlain : Bytes → Type 0
IsPlain pre = index (pre ++ codes "kms") (codes "kms ") ≡ none

drop-two : (p x : Bytes) (a b : ℕ) → drop (suc (suc (length p))) (p ++ a ∷ b ∷ x) ≡ x
drop-two [] x a b = refl
drop-two (y ∷ p) x a b = drop-two p x a b

drop-four : (p x : Bytes) (a b c d : ℕ) → drop (length p + 4) (p ++ a ∷ b ∷ c ∷ d ∷ x) ≡ x
drop-four p x a b c d =
    let e : length p + 4 ≡ suc (suc (suc (suc (length p)))) = omega arith in rw e (shifted p)
  where
    shifted : (p : Bytes) → drop (suc (suc (suc (suc (length p))))) (p ++ a ∷ b ∷ c ∷ d ∷ x) ≡ x
    shifted [] = refl
    shifted (y ∷ p) = shifted p

frame_at_text :
    (e : KmsError)
    → All (λ b. b ≢ b':') e.provider
    → frame_at (e.provider ++ (codes ": " ++ (code_text e.code ++ (codes ": " ++ e.msg))))
      ≡ some e.code
unfolding frame_at
frame_at_text e h =
    rw (index-colon e.provider (code_text e.code ++ (codes ": " ++ e.msg)) h, frame_at)
      (rw (drop-two e.provider (code_text e.code ++ (codes ": " ++ e.msg)) 58 32)
        (first_code_text e.code e.msg))

frame-error_text :
    (pre : Bytes) (e : KmsError)
    → IsPlain pre
    → All (λ b. b ≢ b':') e.provider
    → frame (pre ++ error_text e) ≡ some (length pre, e.code)
unfolding frame frame_from error_text
frame-error_text pre e plain h =
    let rest = e.provider ++ (codes ": " ++ (code_text e.code ++ (codes ": " ++ e.msg))) in
    rw (index-append pre (codes "kms ") (codes "kms") rest 32 refl plain, frame_from)
      (rw (drop-four pre rest 107 109 115 32) (rw (frame_at_text e h, frame_from) (ground arith)))

-- From a text that ends in a key-service error's own text, with nothing like a frame before it and
-- no colon in the provider's name, `CodeFromText` reads the error's code and `Cause` its text.
pub code_from_text-error_text :
    (pre : Bytes) (e : KmsError)
    → IsPlain pre
    → All (λ b. b ≢ b':') e.provider
    → (code_from_text (pre ++ error_text e) ≡ some e.code)
      × (cause (pre ++ error_text e) ≡ error_text e)
unfolding code_from_text cause
code_from_text-error_text pre e plain h =
    let found = frame-error_text pre e plain h in
    (rw (found, code_from_text) refl, rw (found, cause) (drop-length pre (error_text e)))
