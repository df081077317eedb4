-- ===== src/World/Holder/Stops.antt =====
-- The calls that stop a World keep the holder's invariant.
use cmek.Base.{
  ℕ, ◌≡◌, inl, inr, refl, ap, ◌∙◌, arith, Option, none, some, Bool, false, not, Bool-cases,
}
use cmek.World.Params.{Params}
use cmek.World.Holder.{
  Holder, Lock, Call, closed, put, build, is_idle, acquire_now, acquire_from, acquire, reset_from,
  go_on, reset, end_stop,
}
use cmek.World.Holder.Watching.{IsWatched, same-IsWatched}
use cmek.World.Holder.Lives.{
  is_cur, IsClean, Lives, locked, set_at-all, set_at-none, cur_or_build-Lives, give-Lives,
  given-Lives, begin_stop-Lives,
}

pub go_on-Lives :
    (p : Params) (now : ℕ) (opens : Bool) (call : Call) (h : Holder)
    → h.cur ≡ none
    → h.lock ≡ Lock.unlocked
    → Lives h
    → Lives (go_on p now opens call h).1
unfolding acquire_now
go_on-Lives p now opens Call.acquires h e l v = (given-Lives p now opens h l v).0
go_on-Lives p now opens Call.resets h e l v =
    (give-Lives now (build p opens h) (cur_or_build-Lives p opens h none e l v)).2

pub end_stop-Lives :
    (p : Params) (now : ℕ) (opens late : Bool) (call : Call) (i since : ℕ) (h : Holder)
    → h.lock ≡ Lock.stopping call i since
    → (late ≡ false → ((h.sites i).holds ≡ 0) × ((h.sites i).tasks ≡ 0))
    → Lives h
    → Lives (end_stop p now opens late call i h).1
unfolding end_stop acquire_now
end_stop-Lives p now opens late call i since h l u v =
    let w = v.stops call i since l in
    let s = closed late (h.sites i) in
    let freed : Holder = record (put i s h) { cur = none; lock = Lock.unlocked } in
    let f : Lives freed = record {
      watched =
          set_at-all (λ j. IsWatched) i s h.sites
            (same-IsWatched (h.sites i) s refl refl refl (v.watched i)) v.watched;
      clean =
          set_at-all (λ j. IsClean) i s h.sites (record { quiet = λ q. w.1; unheld = λ q r. u r })
            v.clean;
      one = λ j. set_at-none j i s h.sites refl (v.one j ∙ ap (λ o. not (is_cur j o)) w.0);
      awake = λ j k q. absurd (ground (arith, q));
      stops = λ other j t k. absurd (locked k);
    } in
    go_on-Lives p now opens call freed refl refl f

pub acquire-Lives :
    (p : Params) (now : ℕ) (opens : Bool) (h : Holder)
    → h.lock ≡ Lock.unlocked
    → Lives h
    → Lives (acquire p now opens h).1
unfolding acquire acquire_now
acquire-Lives p now opens h l v = go h.cur refl
  where
    go : (o : Option ℕ) → h.cur ≡ o → Lives (acquire_from p now opens h o).1
    go none e = (given-Lives p now opens h l v).0
    go (some i) e = elim (Bool-cases (is_idle p now (h.sites i))) [
      | inl q ↦ rw q (begin_stop-Lives Call.acquires now i h e v)
      | inr q ↦ rw q ((given-Lives p now opens h l v).0)
    ]

pub reset-Lives :
    (p : Params) (now : ℕ) (opens : Bool) (h : Holder)
    → h.lock ≡ Lock.unlocked
    → Lives h
    → Lives (reset p now opens h).1
unfolding reset
reset-Lives p now opens h l v = go h.cur refl
  where
    go : (o : Option ℕ) → h.cur ≡ o → Lives (reset_from p now opens h o).1
    go none e = go_on-Lives p now opens Call.resets h e l v
    go (some i) e = begin_stop-Lives Call.resets now i h e v
