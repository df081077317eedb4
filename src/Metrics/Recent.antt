-- ===== src/Metrics/Recent.antt =====
-- The two rings of internal/metrics/registry.go that are read newest first: the timeline (`post`,
-- `events`) and the audit entries of one tenant (the end of `Audit`, `TenantAudit`).
use cmek.Base.{
  ℕ, zero, suc, ◌+◌, ◌-◌, ◌%◌, ◌≤◌, ◌<◌, ◌≡◌, ◌≢◌, refl, sym, ap, subst, ◌∙◌, arith, min, List, [],
  ◌∷◌, ◌++◌, length, length-append, take, ltb, leb, ◌==◌, if◌then◌else◌, Bool-cases, inl, inr,
}
use native.Mathlib.Nat.{mod-eq_of_lt, mod-eq-sub-mod, mod-add-mod}
use cmek.Sink.Window.{mod-apart}

-- Going back `i` slots from the head.
back :
    (older i size : ℕ) → i ≤ size → 0 < size → ((older + i) % size + size - i) % size ≡ older % size
back older i size l p =
    let q : ((older + i) % size + (size - i)) % size ≡ (older + i + (size - i)) % size =
      mod-add-mod (older + i) size (size - i) in
    let r : older + i + (size - i) ≡ older + size = omega arith in
    let m : (older + size) % size ≡ (older + size - size) % size = mod-eq-sub-mod (omega arith) in
    ap (λ k. k % size) (omega arith)
    ∙ q
    ∙ ap (λ k. k % size) r
    ∙ m
    ∙ ap (λ k. k % size) (omega arith)

-- A ring of `size` slots: the slot to be written next and the number of slots in use.
pub record Recent {ℓ} (A : Type ℓ) : Type ℓ where
  pub size : ℕ
  pub head : ℕ
  pub used : ℕ
  pub slots : ℕ → A

module _ {ℓ} {A : Type ℓ} where
  append_assoc : (xs ys zs : List A) → (xs ++ ys) ++ zs ≡ xs ++ (ys ++ zs)
  append_assoc [] ys zs = refl
  append_assoc (x ∷ xs) ys zs = ap (λ l. x ∷ l) (append_assoc xs ys zs)

  unfoldable pub empty_ring : A → ℕ → Recent A
  empty_ring z size = record { size = size; head = 0; used = 0; slots = λ k. z }

  -- Writes one entry.
  unfoldable pub note : A → Recent A → Recent A
  note x r = record r {
    slots = λ k. if k == r.head then x else r.slots k;
    head = (r.head + 1) % r.size;
    used = if ltb r.used r.size then r.used + 1 else r.used;
  }

  -- The loop over the entries from the `i`-th newest on.
  unfoldable pub read_back : Recent A → ℕ → ℕ → List A
  read_back r i zero = []
  read_back r i (suc left) = r.slots ((r.head + r.size - i) % r.size) ∷ read_back r (suc i) left

  unfoldable pub newest : ℕ → Recent A → List A
  unfolding read_back
  newest n r = read_back r 1 (if ltb r.used n then r.used else n)

  -- The ring after all entries of a log, the newest of which comes first.
  unfoldable pub recorded : A → ℕ → List A → Recent A
  unfolding empty_ring note
  recorded z size [] = empty_ring z size
  recorded z size (x ∷ log) = note x (recorded z size log)

  pub recorded-size : (z : A) (size : ℕ) (log : List A) → (recorded z size log).size ≡ size
  unfolding recorded
  recorded-size z size [] = refl
  recorded-size z size (x ∷ log) = recorded-size z size log

  recorded-head :
      (z : A) (size : ℕ) (log : List A) → 0 < size → (recorded z size log).head ≡ length log % size
  unfolding recorded
  recorded-head z size [] p = sym (mod-eq_of_lt p)
  recorded-head z size (x ∷ log) p =
      rw (recorded-head z size log p, recorded-size z size log)
        (mod-add-mod (length log) size 1 ∙ ap (λ k. k % size) (omega arith))

  recorded-used :
      (z : A) (size : ℕ) (log : List A) → (recorded z size log).used ≡ min (length log) size
  unfolding recorded
  recorded-used z size [] = omega arith
  recorded-used z size (x ∷ log) =
      ground (arith, recorded-used z size log, recorded-size z size log)

  -- The slot of an entry that the ring still holds: `xs` came after it and `older` before it.
  recorded-slots :
      (z : A) (size : ℕ) (xs : List A) (x : A) (older : List A)
      → length xs < size
      → (recorded z size (xs ++ x ∷ older)).slots (length older % size) ≡ x
  unfolding recorded
  recorded-slots z size [] x older l =
      let h = recorded-head z size older (omega arith) in ground (arith, h)
  recorded-slots z size (y ∷ xs) x older l =
      let h = recorded-head z size (xs ++ x ∷ older) (omega arith) in
      let n : length (xs ++ x ∷ older) ≡ length older + suc (length xs) =
        omega (arith, length-append xs (x ∷ older)) in
      let apart : (length older + suc (length xs)) % size ≢ length older % size =
        mod-apart size (length older) (suc (length xs)) (omega arith) (omega arith) in
      let apart' : (recorded z size (xs ++ x ∷ older)).head ≢ length older % size =
        subst (λ (k : ℕ). k ≢ length older % size) (sym (h ∙ ap (λ k. k % size) n)) apart in
      ground (arith, recorded-slots z size xs x older (omega arith))

  read_back-take :
      (z : A) (size : ℕ) (log xs older : List A) (left : ℕ)
      → log ≡ xs ++ older
      → left ≤ length older
      → length xs + left ≤ size
      → read_back (recorded z size log) (suc (length xs)) left ≡ take left older
  unfolding read_back
  read_back-take z size log xs older zero e l m = refl
  read_back-take z size log xs [] (suc left) e l m = absurd (omega arith)
  read_back-take z size log xs (x ∷ older) (suc left) e l m =
      let slot : (recorded z size log).slots (length older % size) ≡ x =
        subst (λ l. (recorded z size l).slots (length older % size) ≡ x) (sym e)
          (recorded-slots z size xs x older (omega arith)) in
      let n : length log ≡ length older + suc (length xs) =
        ap length e ∙ omega (arith, length-append xs (x ∷ older)) in
      let at : ((recorded z size log).head + (recorded z size log).size - suc (length xs))
            % (recorded z size log).size
          ≡ length older % size =
        rw (recorded-head z size log (omega arith), recorded-size z size log, n)
          (back (length older) (suc (length xs)) size (omega arith) (omega arith)) in
      let rest =
        read_back-take z size log (xs ++ x ∷ []) older left
          (e ∙ sym (append_assoc xs (x ∷ []) older)) (omega arith)
          (omega (arith, length-append xs (x ∷ []))) in
      let rest' : read_back (recorded z size log) (suc (suc (length xs))) left ≡ take left older =
        subst (λ k. read_back (recorded z size log) (suc k) left ≡ take left older)
          (omega (arith, length-append xs (x ∷ []))) rest in
      rw (at, slot, rest') refl

  take-all : (n : ℕ) (xs : List A) → length xs ≤ n → take n xs ≡ xs
  take-all zero [] l = refl
  take-all zero (x ∷ xs) l = absurd (omega arith)
  take-all (suc n) [] l = refl
  take-all (suc n) (x ∷ xs) l = ap (λ ys. x ∷ ys) (take-all n xs (omega arith))

  -- Reading the newest `n` entries of a ring with at least one slot gives the latest `n` entries
  -- of the whole log, but at most as many as the ring has slots, the newest first.
  pub newest-take :
      (z : A) (size : ℕ) (log : List A) (n : ℕ)
      → 0 < size
      → newest n (recorded z size log) ≡ take (min n size) log
  unfolding newest
  newest-take z size log n p =
      let u = recorded-used z size log in
      let k = if ltb (recorded z size log).used n then (recorded z size log).used else n in
      read_back-take z size log [] log k refl (ground arith) (ground arith)
      ∙ elim (Bool-cases (leb (min n size) (length log))) [
        | inl b ↦ ap (λ j. take j log) (ground arith)
        | inr b ↦ take-all k log (ground arith) ∙ sym (take-all (min n size) log (ground arith))
      ]
