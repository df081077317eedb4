-- ===== src/World/Holder/Lives.antt =====
-- Which Worlds are alive, in any history of a holder.
use cmek.Base.{
  ℕ, suc, ◌≡◌, ◌≢◌, refl, sym, ap, subst, ◌∙◌, arith, Option, none, some, Bool, true, false, not,
  ◌==◌, if◌then◌else◌, set_at,
}
use cmek.World.Params.{Params}
use cmek.World.Holder.{
  Site, Holder, Lock, Call, started, held, view, cancel_site, put, build, cur_or_build, give_view,
  give_hold, give_id, begin_stop,
}
use cmek.World.Holder.Watching.{
  IsWatched, started-IsWatched, same-IsWatched, view-IsWatched, cancel_site-IsWatched,
}

abbrev pub is_cur : ℕ → Option ℕ → Bool
is_cur j none = false
is_cur j (some i) = j == i

-- A closed World starts nothing, and unless Stop gave up its wait nothing runs in it or holds it.
pub record IsClean (s : Site) : Type 0 where
  pub quiet : s.is_closed ≡ true → s.is_cancelled ≡ true
  pub unheld : s.is_closed ≡ true → s.is_late ≡ false → (s.holds ≡ 0) × (s.tasks ≡ 0)

-- The Worlds whose database is open are the current one, and it is being stopped only while Stop
-- has the lock.
pub record Lives (h : Holder) : Type 0 where
  pub watched : (j : ℕ) → IsWatched (h.sites j)
  pub clean : (j : ℕ) → IsClean (h.sites j)
  pub one : (j : ℕ) → (h.sites j).is_closed ≡ not (is_cur j h.cur)
  pub awake :
      (j : ℕ) → h.lock ≡ Lock.unlocked → is_cur j h.cur ≡ true → (h.sites j).is_cancelled ≡ false
  pub stops :
      (call : Call) (i since : ℕ)
      → h.lock ≡ Lock.stopping call i since
      → (h.cur ≡ some i) × ((h.sites i).is_cancelled ≡ true)

pub set_at-all :
    (P : ℕ → Site → Type 0) (i : ℕ) (s : Site) (f : ℕ → Site)
    → P i s
    → ((j : ℕ) → P j (f j))
    → (j : ℕ) → P j (set_at i s f j)
set_at-all P i s f p q j = go (j == i) refl
  where
    go : (b : Bool) → (j == i) ≡ b → P j (if b then s else f j)
    go true e = let h : i ≡ j = ground (arith, e) in subst (λ (k : ℕ). P k s) h p
    go false e = q j

pub true-false : true ≢ false
true-false e = absurd cc

pub locked : {call : Call} {i since : ℕ} → Lock.unlocked ≢ Lock.stopping call i since
locked e = absurd cc

-- A World that changes without being cancelled or closed.
pub put-Lives :
    (i : ℕ) (s : Site) (h : Holder)
    → IsWatched s
    → IsClean s
    → s.is_closed ≡ (h.sites i).is_closed
    → s.is_cancelled ≡ (h.sites i).is_cancelled
    → Lives h
    → Lives (put i s h)
put-Lives i s h w c e f v = record {
  watched = set_at-all (λ j. IsWatched) i s h.sites w v.watched;
  clean = set_at-all (λ j. IsClean) i s h.sites c v.clean;
  one = set_at-all (λ j t. t.is_closed ≡ not (is_cur j h.cur)) i s h.sites (e ∙ v.one i) v.one;
  awake = λ j l.
      set_at-all (λ k t. is_cur k h.cur ≡ true → t.is_cancelled ≡ false) i s h.sites
        (λ q. f ∙ v.awake i l q) (λ k. v.awake k l) j;
  stops = λ call k since l.
      let w = v.stops call k since l in
      (
        w.0,
        set_at-all (λ m t. (h.sites m).is_cancelled ≡ true → t.is_cancelled ≡ true) i s h.sites
            (λ q. f ∙ q) (λ m q. q) k w.1,
      );
}

pub set_at-same : (i : ℕ) (s : Site) (f : ℕ → Site) → set_at i s f i ≡ s
set_at-same i s f = ground arith

-- A World whose database is open is clean whatever it does.
pub open-IsClean : (s : Site) → s.is_closed ≡ false → IsClean s
open-IsClean s e = record { quiet = λ q. absurd cc; unheld = λ q. absurd cc }

is_cur-some : (i : ℕ) (o : Option ℕ) → o ≡ some i → is_cur i o ≡ true
is_cur-some i o e = rw e (ground arith)

cur-open : (i : ℕ) (h : Holder) → h.cur ≡ some i → Lives h → (h.sites i).is_closed ≡ false
cur-open i h e v = v.one i ∙ ap not (is_cur-some i h.cur e)

give_hold-Lives : (i : ℕ) (h : Holder) → h.cur ≡ some i → Lives h → Lives (give_hold (some i, h)).1
give_hold-Lives i h e v =
    put-Lives i (held (h.sites i)) h
      (same-IsWatched (h.sites i) (held (h.sites i)) refl refl refl (v.watched i))
      (open-IsClean (held (h.sites i)) (cur-open i h e v)) refl refl v

give_view-Lives :
    (now i : ℕ) (h : Holder) → h.cur ≡ some i → Lives h → Lives (give_view now (some i, h)).1
unfolding view
give_view-Lives now i h e v =
    let s = (view now (h.sites i)).1 in
    put-Lives i s h (view-IsWatched now (h.sites i) (v.watched i))
      (open-IsClean s (cur-open i h e v)) refl refl v

-- The current World's number after one is built or closed.
set_at-one :
    (j n : ℕ) (s : Site) (f : ℕ → Site)
    → s.is_closed ≡ false
    → (f j).is_closed ≡ true
    → (set_at n s f j).is_closed ≡ not (j == n)
set_at-one j n s f e q = go (j == n)
  where
    go : (b : Bool) → (if b then s else f j).is_closed ≡ not b
    go true = e
    go false = q

pub set_at-none :
    (j n : ℕ) (s : Site) (f : ℕ → Site)
    → s.is_closed ≡ true
    → (f j).is_closed ≡ not (j == n)
    → (set_at n s f j).is_closed ≡ true
set_at-none j n s f e q = go (j == n) q
  where
    go : (b : Bool) → (f j).is_closed ≡ not b → (if b then s else f j).is_closed ≡ true
    go true r = e
    go false r = r

set_at-awake :
    (j n : ℕ) (s : Site) (f : ℕ → Site)
    → s.is_cancelled ≡ false
    → (j == n) ≡ true
    → (set_at n s f j).is_cancelled ≡ false
set_at-awake j n s f e q = rw q e

-- What build leaves where there was no World.
build-Lives :
    (p : Params) (opens : Bool) (h : Holder)
    → h.lock ≡ Lock.unlocked
    → h.cur ≡ none
    → Lives h
    → Lives (build p opens h).1
unfolding build
build-Lives p false h l e v = record {
  watched = v.watched;
  clean = v.clean;
  one = λ j. v.one j ∙ ap (λ o. not (is_cur j o)) e;
  awake = λ j k q. absurd (ground (arith, q));
  stops = λ call i since k. absurd (locked (sym l ∙ k));
}
build-Lives p true h l e v =
    let n = suc h.seq in
    record {
      watched = set_at-all (λ j. IsWatched) n (started p) h.sites (started-IsWatched p) v.watched;
      clean =
          set_at-all (λ j. IsClean) n (started p) h.sites (open-IsClean (started p) refl) v.clean;
      one = λ j. set_at-one j n (started p) h.sites refl (v.one j ∙ ap (λ o. not (is_cur j o)) e);
      awake = λ j k q. set_at-awake j n (started p) h.sites refl q;
      stops = λ call i since k. absurd (locked (sym l ∙ k));
    }

pub cur_or_build-Lives :
    (p : Params) (opens : Bool) (h : Holder) (o : Option ℕ)
    → h.cur ≡ o
    → h.lock ≡ Lock.unlocked
    → Lives h
    → let r = cur_or_build p opens h o in (r.1.cur ≡ r.0) × Lives r.1
unfolding build
cur_or_build-Lives p opens h (some i) e l v = (e, v)
cur_or_build-Lives p true h none e l v = (refl, build-Lives p true h l e v)
cur_or_build-Lives p false h none e l v = (refl, build-Lives p false h l e v)

-- What is given out of a holder whose World is the one named.
pub give-Lives :
    (now : ℕ) (r : Option ℕ × Holder)
    → (r.1.cur ≡ r.0) × Lives r.1
    → Lives (give_view now r).1 × Lives (give_hold r).1 × Lives (give_id r).1
give-Lives now (none, h) v = (v.1, v.1, v.1)
give-Lives now (some i, h) v = (give_view-Lives now i h v.0 v.1, give_hold-Lives i h v.0 v.1, v.1)

pub given-Lives :
    (p : Params) (now : ℕ) (opens : Bool) (h : Holder)
    → h.lock ≡ Lock.unlocked
    → Lives h
    → let r = cur_or_build p opens h h.cur in
      Lives (give_view now r).1 × Lives (give_hold r).1 × Lives (give_id r).1
given-Lives p now opens h l v =
    give-Lives now (cur_or_build p opens h h.cur) (cur_or_build-Lives p opens h h.cur refl l v)

pub begin_stop-Lives :
    (call : Call) (now i : ℕ) (h : Holder)
    → h.cur ≡ some i
    → Lives h
    → Lives (begin_stop call now i h).1
unfolding begin_stop cancel_site
begin_stop-Lives call now i h e v =
    let s = cancel_site now (h.sites i) in
    let c : s.is_closed ≡ false = cur-open i h e v in
    record {
      watched =
          set_at-all (λ j. IsWatched) i s h.sites
            (cancel_site-IsWatched now (h.sites i) (v.watched i)) v.watched;
      clean = set_at-all (λ j. IsClean) i s h.sites (open-IsClean s c) v.clean;
      one = set_at-all (λ j t. t.is_closed ≡ not (is_cur j h.cur)) i s h.sites (v.one i) v.one;
      awake = λ j l. absurd (locked (sym l));
      stops = λ other k since l.
          let same : i ≡ k = cc in
          subst (λ (m : ℕ). (h.cur ≡ some m) × ((set_at i s h.sites m).is_cancelled ≡ true)) same
            (e, ap (λ (t : Site). t.is_cancelled) (set_at-same i s h.sites));
    }
