-- ===== src/World/Holder/Histories.antt =====
-- What holds of the Worlds in any history of a holder.
use cmek.Base.{
  ℕ, suc, ◌≤◌, ◌≡◌, inl, inr, refl, sym, ap, ◌∙◌, arith, [], length, Option, none, some, true,
  false, not, ltb, Bool-cases,
}
use cmek.World.Params.{Params}
use cmek.World.Holder.{
  Site, Holder, Lock, HolderStep, Reached, new_holder, let_hold_go, is_idle, idle_for, ensure,
  current,
}
use cmek.World.Holder.Watching.{absent-IsWatched, same-IsWatched, release-IsWatched}
use cmek.World.Holder.Lives.{
  is_cur, IsClean, Lives, locked, put-Lives, open-IsClean, give-Lives, given-Lives, true-false,
}
use cmek.World.Holder.Stops.{end_stop-Lives, acquire-Lives, reset-Lives}

awake-open : (s : Site) → s.is_cancelled ≡ false → IsClean s → s.is_closed ≡ false
awake-open s e c = elim (Bool-cases s.is_closed) [
  | inl q ↦ absurd (true-false (sym (c.quiet q) ∙ e))
  | inr q ↦ q
]

-- Where a World loses a hold or a task, it stays clean.
less-IsClean :
    (s s' : Site)
    → s'.is_closed ≡ s.is_closed
    → s'.is_cancelled ≡ s.is_cancelled
    → s'.is_late ≡ s.is_late
    → s'.holds ≤ s.holds
    → s'.tasks ≤ s.tasks
    → IsClean s
    → IsClean s'
less-IsClean s s' e f g m n c = record {
  quiet = λ q. f ∙ c.quiet (sym e ∙ q);
  unheld = λ q r.
      let u = c.unheld (sym e ∙ q) (sym g ∙ r) in (omega (arith, u.0, m), omega (arith, u.1, n));
}

release-IsClean :
    (now : ℕ) (channel : Option ℕ) (s : Site) → IsClean s → IsClean (let_hold_go now channel s)
unfolding let_hold_go
release-IsClean now none s c =
    less-IsClean s (let_hold_go now none s) refl refl refl (omega arith) (omega arith) c
release-IsClean now (some k) s c =
    less-IsClean s (let_hold_go now (some k) s) refl refl refl (omega arith) (omega arith) c

release-fields :
    (now : ℕ) (channel : Option ℕ) (s : Site)
    → ((let_hold_go now channel s).is_closed ≡ s.is_closed)
      × ((let_hold_go now channel s).is_cancelled ≡ s.is_cancelled)
unfolding let_hold_go
release-fields now none s = (refl, refl)
release-fields now (some k) s = (refl, refl)

new_holder-Lives : (p : Params) → Lives (new_holder p)
new_holder-Lives p = record {
  watched = λ j. absent-IsWatched p;
  clean = λ j. record { quiet = λ q. refl; unheld = λ q r. (refl, refl) };
  one = λ j. refl;
  awake = λ j l q. absurd (ground (arith, q));
  stops = λ call i since l. absurd (locked l);
}

turn-Lives : (p : Params) (h h' : Holder) → HolderStep p h h' → Lives h → Lives h'
unfolding ensure current
turn-Lives p _ _ (HolderStep.acquires now opens h l) v = acquire-Lives p now opens h l v
turn-Lives p _ _ (HolderStep.ensures opens h l) v = (given-Lives p 0 opens h l v).1
turn-Lives p _ _ (HolderStep.looks h l) v = (give-Lives 0 (h.cur, h) (refl, v)).1
turn-Lives p _ _ (HolderStep.resets now opens h l) v = reset-Lives p now opens h l v
turn-Lives p _ _ (HolderStep.drains now opens call i since h l d t) v =
    end_stop-Lives p now opens false call i since h l (λ q. (d, t)) v
turn-Lives p _ _ (HolderStep.times_out now opens call i since h l t) v =
    end_stop-Lives p now opens true call i since h l (λ q. absurd cc) v
turn-Lives p _ _ (HolderStep.releases now i n channel h e) v =
    let f = release-fields now channel (h.sites i) in
    put-Lives i (let_hold_go now channel (h.sites i)) h
      (release-IsWatched now channel (h.sites i) (v.watched i))
      (release-IsClean now channel (h.sites i) (v.clean i)) f.0 f.1 v
turn-Lives p _ _ (HolderStep.task_starts i h e) v =
    let s : Site = record (h.sites i) { tasks = suc (h.sites i).tasks } in
    put-Lives i s h (same-IsWatched (h.sites i) s refl refl refl (v.watched i))
      (open-IsClean s (awake-open (h.sites i) e (v.clean i))) refl refl v
turn-Lives p _ _ (HolderStep.task_ends i n h e) v =
    let s : Site = record (h.sites i) { tasks = n } in
    put-Lives i s h (same-IsWatched (h.sites i) s refl refl refl (v.watched i))
      (less-IsClean (h.sites i) s refl refl refl (omega arith) (omega (arith, e)) (v.clean i)) refl
      refl v

-- Every history of a holder keeps its invariant.
reached-Lives : (p : Params) (h : Holder) → Reached p h → Lives h
reached-Lives p _ Reached.fresh = new_holder-Lives p
reached-Lives p _ (Reached.turned h h' r t) = turn-Lives p h h' t (reached-Lives p h r)

-- In any history of a holder, outside of a Stop, the current World is the only one whose database is
-- open and the only one that is not cancelled.
pub one_world :
    (p : Params) (h : Holder) (j : ℕ)
    → Reached p h
    → h.lock ≡ Lock.unlocked
    → ((h.sites j).is_closed ≡ not (is_cur j h.cur))
      × ((h.sites j).is_cancelled ≡ not (is_cur j h.cur))
one_world p h j r l =
    let v = reached-Lives p h r in
    (
      v.one j,
      elim (Bool-cases (is_cur j h.cur)) [
        | inl q ↦ v.awake j l q ∙ ap not (sym q)
        | inr q ↦ (v.clean j).quiet (v.one j ∙ ap not q) ∙ ap not (sym q)
      ],
    )

-- In any history of a holder, once a World's database is closed, no handler holds the World and no
-- goroutine of its WaitGroup runs, unless Stop waited for StopTimeout and logged it.
pub closed_unheld :
    (p : Params) (h : Holder) (j : ℕ)
    → Reached p h
    → (h.sites j).is_closed ≡ true
    → (h.sites j).is_late ≡ false
    → ((h.sites j).holds ≡ 0) × ((h.sites j).tasks ≡ 0)
closed_unheld p h j r c l = ((reached-Lives p h r).clean j).unheld c l

-- In any history of a holder, a World's traffic runs exactly while it has a viewer.
pub traffic_watched :
    (p : Params) (h : Holder) (j : ℕ)
    → Reached p h
    → (h.sites j).is_running ≡ ltb 0 (length (h.sites j).hub.subs)
traffic_watched p h j r = ((reached-Lives p h r).watched j).gate

-- In any history of a holder, the idle rule of Acquire never applies to a World that nobody has
-- watched yet, however long ago it was built.
pub unwatched_kept :
    (p : Params) (h : Holder) (j now : ℕ)
    → Reached p h
    → (h.sites j).hub.told ≡ []
    → is_idle p now (h.sites j) ≡ false
unfolding is_idle idle_for
unwatched_kept p h j now r t = ground (arith, ((reached-Lives p h r).watched j).unheard t)
