-- ===== src/Kms/Frame.antt =====
-- internal/kms/kms.go: `frame`, `CodeFromText` and `Cause`, which read an error's code back from
-- a text that other code has put round it.
use cmek.Base.{
  ℕ, zero, suc, ◌+◌, Bytes, codes, index, has_prefix, List, [], ◌∷◌, ◌++◌, Option, none, some, drop,
  length, if◌then◌else◌, is_some,
}
use cmek.Kms.Errors.{Code, code_text}

abbrev pub all_codes : List Code
all_codes = Code.timeout ∷ Code.unavailable ∷ Code.access_denied ∷ Code.key_disabled ∷ []

-- The inner loop: the first code whose text and ": " begin `rest`.
unfoldable pub first_code : Bytes → List Code → Option Code
unfolding has_prefix code_text
first_code rest [] = none
first_code rest (c ∷ cs) =
    if has_prefix rest (code_text c ++ codes ": ") then some c else first_code rest cs

-- What stands behind one "kms ".
unfoldable pub frame_at : Bytes → Option Code
frame_at rest = elim (index rest (codes ": ")) [
  | none ↦ none
  | some k ↦ first_code (drop (suc (suc k)) rest) all_codes
]

-- The outer loop at offset `i`, over `s[i:]`. Each round moves at least four bytes on, so the
-- length of the text is fuel enough.
unfoldable pub frame_from : ℕ → ℕ → Bytes → Option (ℕ × Code)
frame_from zero i s = none
frame_from (suc fuel) i s = elim (index s (codes "kms ")) [
  | none ↦ none
  | some j ↦
      let rest = drop (j + 4) s in
      let again = frame_from fuel (i + j + 4) rest in
      elim (frame_at rest) [ none ↦ again | some c ↦ some (i + j, c) ]
]

unfoldable pub frame : Bytes → Option (ℕ × Code)
unfolding frame_from
frame s = frame_from (suc (length s)) 0 s

abbrev pub deadline_text : Bytes
deadline_text = codes "context deadline exceeded"

-- The argument is the text of a non-nil error.
unfoldable pub code_from_text : Bytes → Option Code
unfolding frame
code_from_text s = elim (frame s) [
  | some (i, c) ↦ some c
  | none ↦ if is_some (index s deadline_text) then some Code.timeout else none
]

unfoldable pub cause : Bytes → Bytes
unfolding frame
cause s = elim (frame s) [
  | some (i, c) ↦ drop i s
  | none ↦ elim (index s deadline_text) [ some i ↦ drop i s | none ↦ s ]
]
