-- ===== src/Kms/First.antt =====
-- The frame reader of kms.go finds the first frame of a text, and none only where there is none.
use cmek.Base.{
  ℕ, zero, suc, ◌+◌, ◌≤◌, ◌<◌, ◌≡◌, refl, sym, ap, ◌∙◌, subst, arith, Bytes, codes, index,
  has_prefix, [], ◌∷◌, Option, none, some, Bool, true, false, if◌then◌else◌, drop, length,
  Option-cases, Bool-cases, inl, inr, ltb, ◌==◌, ◌-◌,
}
use cmek.Kms.Errors.{Code}
use cmek.Kms.Frame.{frame_at, frame_from, frame}

-- "kms " stands at a place of the text.
abbrev pub stands : ℕ → Bytes → Bool
stands j s = has_prefix (drop j s) (codes "kms ")

drop-nil : (n : ℕ) → drop {A = ℕ} n [] ≡ []
drop-nil zero = refl
drop-nil (suc n) = refl

drop-drop : (m n : ℕ) (s : Bytes) → drop n (drop m s) ≡ drop (m + n) s
drop-drop zero n s = ap (λ (k : ℕ). drop k s) (omega arith)
drop-drop (suc m) n [] = drop-nil n ∙ sym (drop-nil (suc m + n))
drop-drop (suc m) n (b ∷ s) =
    let next : suc (m + n) ≡ suc m + n = omega arith in
    drop-drop m n s ∙ ap (λ (k : ℕ). drop k (b ∷ s)) next

length-drop-le : (n : ℕ) (s : Bytes) → length (drop n s) ≤ length s
length-drop-le zero s = omega arith
length-drop-le (suc n) [] = omega arith
length-drop-le (suc n) (x ∷ s) = omega (arith, length-drop-le n s)

stands-nil : (j : ℕ) → stands j [] ≡ false
unfolding has_prefix
stands-nil zero = refl
stands-nil (suc j) = refl

-- What stands behind a match is shorter than the text.
length-behind : (j : ℕ) (s : Bytes) → stands j s ≡ true → length (drop (j + 4) s) < length s
length-behind j [] e = let h = stands-nil j in absurd (ground (arith, e, h))
length-behind zero (x ∷ s) e = omega (arith, length-drop-le 3 s)
length-behind (suc j) (x ∷ s) e =
    let next : suc (j + 4) ≡ suc j + 4 = omega arith in
    subst (λ (k : ℕ). length (drop k (x ∷ s)) < length (x ∷ s)) next
      (omega (arith, length-behind j s e))

-- `index` gives the first place.
index-none : (s : Bytes) → index s (codes "kms ") ≡ none → (j : ℕ) → stands j s ≡ false
unfolding index
index-none [] e j = stands-nil j
index-none (x ∷ s) e zero = ground arith
index-none (x ∷ s) e (suc j) = index-none s (rest (has_prefix (x ∷ s) (codes "kms ")) _ e) j
  where
    rest :
        (b : Bool) (o : Option ℕ)
        → (if b then some 0 else elim o as (λ o. Option ℕ) [ none ↦ none | some i ↦ some (suc i) ])
          ≡ none
        → o ≡ none
    rest true o q = absurd cc
    rest false none q = refl
    rest false (some i) q = absurd cc

record IsIndex (m : ℕ) (s : Bytes) : Type 0 where
  pub here : stands m s ≡ true
  pub none_before : (j : ℕ) → j < m → stands j s ≡ false

index-some : (s : Bytes) (m : ℕ) → index s (codes "kms ") ≡ some m → IsIndex m s
unfolding index has_prefix
index-some [] m e = absurd cc
index-some (x ∷ s) m e =
    go (index-some s) (has_prefix (x ∷ s) (codes "kms ")) refl (index s (codes "kms ")) refl e
  where
    go :
        ((i : ℕ) → index s (codes "kms ") ≡ some i → IsIndex i s)
        → (b : Bool) → has_prefix (x ∷ s) (codes "kms ") ≡ b
        → (o : Option ℕ) → index s (codes "kms ") ≡ o
        → (if b then some 0 else elim o as (λ o. Option ℕ) [ none ↦ none | some i ↦ some (suc i) ])
          ≡ some m
        → IsIndex m (x ∷ s)
    go again true h o k q =
        let at_start : 0 ≡ m = ap (λ o. elim o [ none ↦ 0 | some i ↦ i ]) q in
        subst (λ (m : ℕ). IsIndex m (x ∷ s)) at_start
          (record { here = h; none_before = λ j l. absurd (omega (arith, l)) })
    go again false h none k q = absurd cc
    go again false h (some i) k q =
        let there : suc i ≡ m = ap (λ o. elim o [ none ↦ 0 | some i ↦ i ]) q in
        let v = again i k in
        subst (λ (m : ℕ). IsIndex m (x ∷ s)) there
          (record { here = v.here; none_before = λ j. before h v j })
      where
        before :
            has_prefix (x ∷ s) (codes "kms ") ≡ false
            → IsIndex i s
            → (j : ℕ) → j < suc i
            → stands j (x ∷ s) ≡ false
        before h v zero l = h
        before h v (suc j) l = v.none_before j (omega (arith, l))

-- No two places of "kms " overlap.
stands-apart : (m d : ℕ) (s : Bytes) → stands m s ≡ true → 0 < d → d < 4 → stands (m + d) s ≡ false
unfolding has_prefix
stands-apart m d s e l u =
    ap (λ (t : Bytes). has_prefix t (codes "kms ")) (sym (drop-drop m d s)) ∙ go (drop m s) d e l u
  where
    go :
        (t : Bytes) (d : ℕ)
        → has_prefix t (codes "kms ") ≡ true
        → 0 < d
        → d < 4
        → has_prefix (drop d t) (codes "kms ") ≡ false
    go t zero e l u = absurd (omega (arith, l))
    go [] (suc d) e l u = refl
    go (a ∷ []) (suc d) e l u = stands-nil d
    go (a ∷ b ∷ t) (suc zero) e l u = ground (arith, e)
    go (a ∷ b ∷ []) (suc (suc d)) e l u = stands-nil d
    go (a ∷ b ∷ c ∷ t) (suc (suc zero)) e l u = ground (arith, e)
    go (a ∷ b ∷ c ∷ []) (suc (suc (suc d))) e l u = stands-nil d
    go (a ∷ b ∷ c ∷ x ∷ t) (suc (suc (suc zero))) e l u = ground (arith, e)
    go (a ∷ b ∷ c ∷ x ∷ t) (suc (suc (suc (suc d)))) e l u = absurd (omega (arith, u))

-- Of all places at which "kms " stands and a code follows, what is found from offset `i` on is the
-- first, and none is found only if there is none.
abbrev IsFrame : ℕ → Bytes → Code → Type 0
IsFrame j s c = (stands j s ≡ true) × (frame_at (drop (j + 4) s) ≡ some c)

abbrev pub IsBare : Bytes → ℕ → Type 0
IsBare s j = stands j s ≡ true → frame_at (drop (j + 4) s) ≡ none

abbrev IsFound : ℕ → Bytes → Option (ℕ × Code) → Type 0
IsFound i s none = (j : ℕ) → IsBare s j
IsFound i s (some (k, c)) = (m : ℕ) × (k ≡ i + m) × IsFrame m s c × ((j : ℕ) → j < m → IsBare s j)

-- The places up to three behind the first one.
IsBare-below :
    (m j : ℕ) (s : Bytes) → IsIndex m s → frame_at (drop (m + 4) s) ≡ none → j < m + 4 → IsBare s j
IsBare-below m j s v n l e = elim (Bool-cases (ltb j m)) [
  | inl b ↦ let q = v.none_before j (ground (arith, b)) in absurd (ground (arith, e, q))
  | inr b ↦ elim (Bool-cases (j == m)) [
    | inl q ↦
        let same_place : m ≡ j = ground (arith, q) in
        subst (λ (k : ℕ). frame_at (drop (k + 4) s) ≡ none) same_place n
    | inr q ↦
        let d : ℕ = j - m in
        let back : m + d ≡ j = ground (arith, b) in
        let a = stands-apart m d s v.here (ground (arith, b, q)) (ground (arith, b, l)) in
        let a' = subst (λ (k : ℕ). stands k s ≡ false) back a in absurd (ground (arith, e, a'))
  ]
]

stands-behind : (n j : ℕ) (s : Bytes) → stands j (drop n s) ≡ stands (n + j) s
stands-behind n j s = ap (λ (t : Bytes). has_prefix t (codes "kms ")) (drop-drop n j s)

frame_at-behind :
    (n j : ℕ) (s : Bytes) → frame_at (drop (j + 4) (drop n s)) ≡ frame_at (drop (n + j + 4) s)
frame_at-behind n j s =
    ap frame_at (drop-drop n (j + 4) s) ∙ ap (λ (k : ℕ). frame_at (drop k s)) (omega arith)

IsBare-behind : (n j : ℕ) (s : Bytes) → IsBare (drop n s) j → IsBare s (n + j)
IsBare-behind n j s b e = sym (frame_at-behind n j s) ∙ b (stands-behind n j s ∙ e)

-- Past the first place, where no code follows, the search goes on behind it.
goes_on :
    (i m : ℕ) (s : Bytes) (o : Option (ℕ × Code))
    → IsIndex m s
    → frame_at (drop (m + 4) s) ≡ none
    → IsFound (i + m + 4) (drop (m + 4) s) o
    → IsFound i s o
goes_on i m s o v n found = go o found
  where
    later :
        (limit j : ℕ)
        → ((k : ℕ) → k < limit → IsBare (drop (m + 4) s) k)
        → j < m + 4 + limit
        → IsBare s j
    later limit j h l = elim (Bool-cases (ltb j (m + 4))) [
      | inl b ↦ IsBare-below m j s v n (ground (arith, b))
      | inr b ↦
          let back : m + 4 + (j - (m + 4)) ≡ j = ground (arith, b) in
          subst (λ (k : ℕ). IsBare s k) back
            (IsBare-behind (m + 4) (j - (m + 4)) s (h (j - (m + 4)) (ground (arith, b, l))))
    ]

    go : (o : Option (ℕ × Code)) → IsFound (i + m + 4) (drop (m + 4) s) o → IsFound i s o
    go none f = λ j. later (suc j) j (λ k l. f k) (omega arith)
    go (some (k, c)) (p, e, fr, h) = (
      m + 4 + p,
      e ∙ omega arith,
      (sym (stands-behind (m + 4) p s) ∙ fr.0, sym (frame_at-behind (m + 4) p s) ∙ fr.1),
      λ j l. later p j h l,
    )

frame_from-IsFound : (fuel i : ℕ) (s : Bytes) → length s < fuel → IsFound i s (frame_from fuel i s)
unfolding frame_from
frame_from-IsFound zero i s l = absurd (omega (arith, l))
frame_from-IsFound (suc fuel) i s l = elim (Option-cases (index s (codes "kms "))) [
  | inl e ↦ rw (e, frame_from) (λ j q. let p = index-none s e j in absurd (ground (arith, q, p)))
  | inr (m, e) ↦
      let v = index-some s m e in
      let shorter = length-behind m s v.here in
      elim (Option-cases (frame_at (drop (m + 4) s))) [
        | inl n ↦
            rw (e, n, frame_from)
              (goes_on i m s _ v n
                (frame_from-IsFound fuel (i + m + 4) (drop (m + 4) s) (omega (arith, l, shorter))))
        | inr (c, n) ↦
            rw (e, n, frame_from)
              (
                m,
                refl,
                (v.here, n),
                λ j k q. let p = v.none_before j k in absurd (ground (arith, q, p)),
              )
      ]
]

-- What the reader finds of a text.
abbrev pub IsFirst : Bytes → Option (ℕ × Code) → Type 0
IsFirst s none = (j : ℕ) → IsBare s j
IsFirst s (some (k, c)) = IsFrame k s c × ((j : ℕ) → j < k → IsBare s j)

-- The frame that the reader finds in a text is the first one: "kms " stands where it begins, its code
-- follows, and at no earlier place do "kms " and then a code stand; and where it finds none, they
-- stand at no place of the text.
pub frame-IsFirst : (s : Bytes) → IsFirst s (frame s)
unfolding frame
frame-IsFirst s =
    go (frame_from (suc (length s)) 0 s) (frame_from-IsFound (suc (length s)) 0 s (omega arith))
  where
    go : (o : Option (ℕ × Code)) → IsFound 0 s o → IsFirst s o
    go none f = f
    go (some (k, c)) (m, e, fr, h) =
        let same_place : m ≡ k = omega (arith, e) in
        subst (λ (n : ℕ). IsFirst s (some (n, c))) same_place (fr, h)
