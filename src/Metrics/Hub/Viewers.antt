-- ===== src/Metrics/Hub/Viewers.antt =====
-- What the hub tells its watcher.
use cmek.Base.{
  ℕ, ◌≤◌, ◌≡◌, refl, sym, ◌∙◌, arith, List, [], ◌∷◌, length, drop, length-append, All, Bool, true,
  false, ◌==◌, Bytes, if◌then◌else◌,
}
use cmek.Metrics.Hub.{
  Sub, Hub, new_hub, was_cancelled, remove, offer_all, pop, take_from, Deed, act, subscribe, cancel,
  broadcast, close_all,
}

abbrev pub last_told : List ℕ → ℕ
last_told [] = 0
last_told (n ∷ ns) = n

-- The watcher's latest count is the number of viewers, a closed hub has none, and no channel holds
-- more than its capacity.
pub record IsTold (h : Hub) : Type 0 where
  pub counted : last_told h.told ≡ length h.subs
  pub closed : h.is_closed ≡ true → length h.subs ≡ 0
  pub bounded : All (λ s. length s.queue ≤ h.depth) h.subs

length-offer_all : (d : ℕ) (b : Bytes) (subs : List Sub) → length (offer_all d b subs) ≡ length subs
length-offer_all d b [] = refl
length-offer_all d b (s ∷ subs) = omega (arith, length-offer_all d b subs)

length-take_from : (i : ℕ) (subs : List Sub) → length (take_from i subs) ≡ length subs
length-take_from i [] = refl
length-take_from i (s ∷ subs) = omega (arith, length-take_from i subs)

module _ (d : ℕ) where
  abbrev Fits : Sub → Type 0
  Fits s = length s.queue ≤ d

  offer_all-Fits : (b : Bytes) (subs : List Sub) → All Fits subs → All Fits (offer_all d b subs)
  offer_all-Fits b [] f = tt
  offer_all-Fits b (s ∷ subs) f =
      (ground (arith, f.0, length-append s.queue (b ∷ [])), offer_all-Fits b subs f.1)

  remove-Fits : (i : ℕ) (subs : List Sub) → All Fits subs → All Fits (remove i subs)
  remove-Fits i [] f = tt
  remove-Fits i (s ∷ subs) f = go (remove-Fits i subs f.1) (s.id == i)
    where
      go :
          All Fits (remove i subs)
          → (b : Bool) → All Fits (if b then remove i subs else s ∷ remove i subs)
      go rest true = rest
      go rest false = (f.0, rest)

  length-drop : (q : List Bytes) → length (drop 1 q) ≤ length q
  length-drop [] = omega arith
  length-drop (b ∷ q) = omega arith

  take_from-Fits : (i : ℕ) (subs : List Sub) → All Fits subs → All Fits (take_from i subs)
  take_from-Fits i [] f = tt
  take_from-Fits i (s ∷ subs) f = (go (s.id == i), take_from-Fits i subs f.1)
    where
      go : (b : Bool) → Fits (if b then pop s else s)
      go true = omega (arith, length-drop s.queue, f.0)
      go false = f.0

pub new_hub-IsTold : (depth : ℕ) → IsTold (new_hub depth)
new_hub-IsTold depth = record { counted = refl; closed = λ h. refl; bounded = tt }

remove-none : (i : ℕ) (subs : List Sub) → length subs ≡ 0 → length (remove i subs) ≡ 0
remove-none i [] e = refl
remove-none i (s ∷ subs) e = absurd (omega (arith, e))

subscribe-IsTold : (h : Hub) → IsTold h → IsTold (subscribe h).1
unfolding subscribe
subscribe-IsTold h v = go h.is_closed refl
  where
    go : (b : Bool) → h.is_closed ≡ b → IsTold (subscribe h).1
    go true e =
        rw (e, subscribe)
          (record { counted = v.counted; closed = λ q. v.closed e; bounded = v.bounded })
    go false e =
        rw (e, subscribe)
          (record { counted = refl; closed = λ q. absurd cc; bounded = (omega arith, v.bounded) })

cancel-IsTold : (i : ℕ) (h : Hub) → IsTold h → IsTold (cancel i h)
unfolding cancel
cancel-IsTold i h v = go (was_cancelled i h.cancelled) h.is_closed refl refl
  where
    go : (b c : Bool) → was_cancelled i h.cancelled ≡ b → h.is_closed ≡ c → IsTold (cancel i h)
    go true c e q = rw (e, cancel) v
    go false true e q =
        rw (e, q, cancel)
          (record {
            counted = v.counted ∙ v.closed q ∙ sym (remove-none i h.subs (v.closed q));
            closed = λ k. remove-none i h.subs (v.closed q);
            bounded = remove-Fits h.depth i h.subs v.bounded;
          })
    go false false e q =
        rw (e, q, cancel)
          (record {
            counted = refl;
            closed = λ k. absurd cc;
            bounded = remove-Fits h.depth i h.subs v.bounded;
          })

-- Whatever subscribes, cancels, broadcasts, reads and closes, in any order: the watcher's latest
-- count is the number of open channels, a closed hub has none, and no channel holds more than its
-- capacity.
pub act-IsTold : (d : Deed) (h : Hub) → IsTold h → IsTold (act d h)
unfolding act broadcast close_all
act-IsTold Deed.subscribes h v = subscribe-IsTold h v
act-IsTold (Deed.cancels i) h v = cancel-IsTold i h v
act-IsTold (Deed.broadcasts b) h v = record {
  counted = v.counted ∙ sym (length-offer_all h.depth b h.subs);
  closed = λ e. length-offer_all h.depth b h.subs ∙ v.closed e;
  bounded = offer_all-Fits h.depth b h.subs v.bounded;
}
act-IsTold (Deed.reads i) h v = record {
  counted = v.counted ∙ sym (length-take_from i h.subs);
  closed = λ e. length-take_from i h.subs ∙ v.closed e;
  bounded = take_from-Fits h.depth i h.subs v.bounded;
}
act-IsTold Deed.closes h v = record { counted = refl; closed = λ e. refl; bounded = tt }
