-- ===== src/World/Holder/Watching.antt =====
-- A World's traffic runs while somebody watches it.
use cmek.Base.{
  ℕ, zero, suc, ◌≡◌, ◌≢◌, inl, inr, refl, sym, ap, ◌∙◌, arith, List, [], ◌∷◌, length, Option, none,
  some, Bool, true, false, ltb, subst, Bool-cases,
}
use cmek.Metrics.Hub.{Hub, subscribe, cancel, close_all, was_cancelled, act, Deed}
use cmek.Metrics.Hub.Viewers.{IsTold, last_told, new_hub-IsTold, act-IsTold}
use cmek.World.Params.{Params}
use cmek.World.Holder.{
  Site, hear, heard, with_hub, started, held, view, cancel_site, let_hold_go, absent,
}

-- The traffic's gate and the idle instant follow the viewers.
pub record IsWatched (s : Site) : Type 0 where
  pub told : IsTold s.hub
  pub gate : s.is_running ≡ ltb 0 (length s.hub.subs)
  pub since : s.is_running ≡ true → s.idle_since ≡ 0
  pub unheard : s.hub.told ≡ [] → s.idle_since ≡ 0

-- A call of the hub tells its watcher at most one count.
data Tells (h h' : Hub) : Type 0 where
  nothing : h'.told ≡ h.told → Tells h h'
  count : (n : ℕ) → h'.told ≡ n ∷ h.told → Tells h h'

same_told : (now : ℕ) (ns : List ℕ) (s : Site) → ns ≡ s.hub.told → heard now ns s ≡ s
unfolding heard
same_told now [] s e = refl
same_told now (n ∷ ns) s e = ground (arith, ap length e)

next_told :
    (now n : ℕ) (ns : List ℕ) (s : Site) → ns ≡ n ∷ s.hub.told → heard now ns s ≡ hear now n s
unfolding heard
next_told now n [] s e = absurd cc
next_told now n (m ∷ ns) s e = ground (arith, ap length e, e)

subscribe-Tells : (h : Hub) → Tells h (subscribe h).1
unfolding subscribe
subscribe-Tells h = elim (Bool-cases h.is_closed) [
  | inl e ↦ rw (e, subscribe) (Tells.nothing refl)
  | inr e ↦ rw (e, subscribe) (Tells.count (suc (length h.subs)) refl)
]

cancel-Tells : (i : ℕ) (h : Hub) → Tells h (cancel i h)
unfolding cancel
cancel-Tells i h = go (was_cancelled i h.cancelled) h.is_closed refl refl
  where
    go : (b c : Bool) → was_cancelled i h.cancelled ≡ b → h.is_closed ≡ c → Tells h (cancel i h)
    go true c e q = rw (e, cancel) (Tells.nothing refl)
    go false true e q = rw (e, q, cancel) (Tells.nothing refl)
    go false false e q = rw (e, q, cancel) (Tells.count _ refl)

cons-nil : {n : ℕ} {ns : List ℕ} → n ∷ ns ≢ []
cons-nil e = absurd cc

-- A call of the hub that its watcher hears leaves the World watched.
with_hub-IsWatched :
    (now : ℕ) (h : Hub) (s : Site)
    → Tells s.hub h
    → IsTold h
    → IsWatched s
    → IsWatched (with_hub now h s)
unfolding hear
with_hub-IsWatched now h s (Tells.nothing e) t w = rw (same_told now h.told s e) (record {
  told = t;
  gate = w.gate ∙ ap (ltb 0) (sym w.told.counted ∙ ap last_told (sym e) ∙ t.counted);
  since = w.since;
  unheard = λ q. w.unheard (sym e ∙ q);
})
with_hub-IsWatched now h s (Tells.count zero e) t w =
    let l : 0 ≡ length h.subs = ap last_told (sym e) ∙ t.counted in
    rw (next_told now 0 h.told s e) (record {
      told = t;
      gate = ground (arith, l);
      since = λ q. absurd (ground (arith, q));
      unheard = λ q. absurd (cons-nil (sym e ∙ q));
    })
with_hub-IsWatched now h s (Tells.count (suc n) e) t w =
    let l : suc n ≡ length h.subs = ap last_told (sym e) ∙ t.counted in
    rw (next_told now (suc n) h.told s e) (record {
      told = t;
      gate = ground (arith, l);
      since = λ q. refl;
      unheard = λ q. absurd (cons-nil (sym e ∙ q));
    })

pub absent-IsWatched : (p : Params) → IsWatched (absent p)
absent-IsWatched p = record {
  told = new_hub-IsTold p.viewer_queue;
  gate = refl;
  since = λ q. refl;
  unheard = λ q. refl;
}

pub started-IsWatched : (p : Params) → IsWatched (started p)
started-IsWatched p = record {
  told = new_hub-IsTold p.viewer_queue;
  gate = refl;
  since = λ q. refl;
  unheard = λ q. refl;
}

-- What is not about the viewers may change.
pub same-IsWatched :
    (s s' : Site)
    → s'.hub ≡ s.hub
    → s'.is_running ≡ s.is_running
    → s'.idle_since ≡ s.idle_since
    → IsWatched s
    → IsWatched s'
same-IsWatched s s' e f g w = record {
  told = subst IsTold (sym e) w.told;
  gate = f ∙ w.gate ∙ ap (λ (h : Hub). ltb 0 (length h.subs)) (sym e);
  since = λ q. g ∙ w.since (sym f ∙ q);
  unheard = λ q. g ∙ w.unheard (sym (ap (λ (h : Hub). h.told) e) ∙ q);
}

pub view-IsWatched : (now : ℕ) (s : Site) → IsWatched s → IsWatched (view now s).1
unfolding view
view-IsWatched now s w =
    let h = (subscribe s.hub).1 in
    same-IsWatched (with_hub now h s) (held (with_hub now h s)) refl refl refl (
      with_hub-IsWatched now h s (subscribe-Tells s.hub)
        (unfold act in act-IsTold Deed.subscribes s.hub w.told) w)

pub cancel_site-IsWatched : (now : ℕ) (s : Site) → IsWatched s → IsWatched (cancel_site now s)
unfolding cancel_site
cancel_site-IsWatched now s w =
    let h = close_all s.hub in
    same-IsWatched (with_hub now h s) (cancel_site now s) refl refl refl (
      with_hub-IsWatched now h s (unfold close_all in Tells.count 0 refl)
        (unfold act in act-IsTold Deed.closes s.hub w.told) w)

pub release-IsWatched :
    (now : ℕ) (channel : Option ℕ) (s : Site) → IsWatched s → IsWatched (let_hold_go now channel s)
unfolding let_hold_go
release-IsWatched now none s w = same-IsWatched s (let_hold_go now none s) refl refl refl w
release-IsWatched now (some k) s w =
    let h = cancel k s.hub in
    same-IsWatched (with_hub now h s) (let_hold_go now (some k) s) refl refl refl (
      with_hub-IsWatched now h s (cancel-Tells k s.hub)
        (unfold act in act-IsTold (Deed.cancels k) s.hub w.told) w)
