-- ===== src/Kms/Truth.antt =====
-- What the fake provider's ground-truth log says of its keys.
use cmek.Base.{
  ℕ, Bytes, same, same_iff, lookup, lookup-insert, List, [], ◌∷◌, ◌++◌, Option, none, some, Bool,
  true, false, arith, ◌≡◌, refl, ◌≢◌, if◌then◌else◌, same_refl,
}
use cmek.Kms.Fake.{
  Kek, KeyEvent, Fake, Wait, Answer, flip, flip_found, revoke, enabled_now, begin, begin_found,
  check_enabled, Tink, encrypt_with_context, decrypt_with_context,
}

-- The state of a key that the log's events leave, from a key that starts enabled.
abbrev pub replay : Bytes → Bool → List KeyEvent → Bool
replay id b [] = b
replay id b (e ∷ es) = replay id (if same e.kek_id id then e.enabled else b) es

replay-append :
    (id : Bytes) (b : Bool) (es : List KeyEvent) (e : KeyEvent)
    → replay id b (es ++ e ∷ []) ≡ (if same e.kek_id id then e.enabled else replay id b es)
replay-append id b [] e = refl
replay-append id b (x ∷ es) e = replay-append id (if same x.kek_id id then x.enabled else b) es e

-- The log is exact: for every known key, replaying it gives the key's state.
abbrev pub IsExact : Fake → Type 0
IsExact f = (id : Bytes) (k : Kek) → lookup id f.keks ≡ some k → replay id true f.truth ≡ k.enabled

flip_found-IsExact :
    (o : Option Kek) (id : Bytes) (enabled : Bool) (at : ℕ) (f : Fake)
    → lookup id f.keks ≡ o
    → IsExact f
    → IsExact (flip_found o id enabled at f)
unfolding flip_found
flip_found-IsExact none id enabled at f e h j k' l = h j k' l
flip_found-IsExact (some k) id enabled at f e h j k' l = ground (
  arith,
  h j k',
  h id k,
  lookup-insert id j (record k { enabled = enabled }) f.keks,
  replay-append j true f.truth (record { kek_id = id; idx = k.idx; at = at; enabled = enabled }),
  same_iff id j,
)

-- Every revoke and restore keeps the ground-truth log exact, also the repeated ones.
pub flip-IsExact :
    (id : Bytes) (enabled : Bool) (at : ℕ) (f : Fake) → IsExact f → IsExact (flip id enabled at f)
unfolding flip
flip-IsExact id enabled at f h = flip_found-IsExact (lookup id f.keks) id enabled at f refl h

lookup-flip :
    (id : Bytes) (enabled : Bool) (at : ℕ) (f : Fake) (k : Kek)
    → lookup id f.keks ≡ some k
    → lookup id (flip id enabled at f).keks ≡ some (record k { enabled = enabled })
unfolding flip flip_found
lookup-flip id enabled at f k e =
    ground (arith, lookup-insert id id (record k { enabled = enabled }) f.keks, same_refl id)

enabled_now-revoke :
    (id : Bytes) (at : ℕ) (f : Fake) (k k' : Kek)
    → lookup id f.keks ≡ some k
    → enabled_now k' id (revoke id at f) ≡ false
unfolding revoke enabled_now
enabled_now-revoke id at f k k' e = rw (lookup-flip id false at f k e, enabled_now) refl

abbrev is_ok {ℓ} : {A : Type ℓ} → Answer A → Bool
is_ok (Answer.ok a) = true
is_ok _ = false

begin_found-revoke :
    (o : Option Kek) (id : Bytes) (u at : ℕ) (w : Wait) (before f : Fake) (k : Kek)
    → lookup id f.keks ≡ some k
    → is_ok (begin_found o id u w before (revoke id at f)) ≡ false
unfolding begin_found check_enabled
begin_found-revoke none id u at w before f k e = refl
begin_found-revoke (some j) id u at w before f k e = ground (arith, enabled_now-revoke id at f k j)

-- Whatever the fault, the draw and the latency: a round trip whose enabled flag is read after the
-- key's revoke does not succeed, so it neither wraps nor unwraps a data key.
pub revoked_round_trip :
    (tink : Tink) (id : Bytes) (u at : ℕ) (w : Wait) (before f : Fake) (k : Kek)
    (text ad out : Bytes)
    → lookup id f.keks ≡ some k
    → (encrypt_with_context tink id u w before (revoke id at f) text ad ≢ Answer.ok out)
      × (decrypt_with_context tink id u w before (revoke id at f) text ad ≢ Answer.ok out)
unfolding encrypt_with_context decrypt_with_context begin
revoked_round_trip tink id u at w before f k text ad out e =
    let no_key = begin_found-revoke (lookup id before.keks) id u at w before f k e in
    (ground (arith, no_key), ground (arith, no_key))
