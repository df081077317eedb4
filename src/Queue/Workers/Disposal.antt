-- ===== src/Queue/Workers/Disposal.antt =====
-- No message of a batch is lost and none is settled twice.
use cmek.Base.{ℕ, ◌+◌, ◌≡◌, refl, arith, List, [], ◌∷◌, ◌++◌, map, ◌==◌, count}
use cmek.Core.Types.{Config}
use cmek.Core.Run.{Env, St, M}
use cmek.Queue.Rows.{Row}
use cmek.Queue.Histories.{Act}
use cmek.Queue.Workers.{
  Desk, Fate, Work, id_of, attempt, also_acked, also_buried, give_back, follow_fate, work, finish,
}

-- An induction on the loop: what holds of the empty batch and passes each fate holds of the work
-- on every batch, whatever the core and the environment do.
pub record Carries {κ} (c : Config) (k : Desk) (Q : List Row → Work → Type κ) : Type κ where
  pub nothing : Q [] (record { acked = []; acts = [] })
  pub delivered : (r : Row) (rs : List Row) (w : Work) → Q rs w → Q (r ∷ rs) (also_acked r.id w)
  pub buried : (r : Row) (rs : List Row) (w : Work) → Q rs w → Q (r ∷ rs) (also_buried k r.id w)
  pub returned : (r : Row) (rs : List Row) → Q (r ∷ rs) (give_back k r rs)

module _ {κ} (c : Config) (k : Desk) (Q : List Row → Work → Type κ) (h : Carries c k Q) where
  follow_fate-Carries :
      (r : Row) (rs : List Row) (rest : M Work) (fate : Fate) (e : Env) (s : St)
      → ((e : Env) (s : St) → Q rs (rest e s).0)
      → Q (r ∷ rs) (follow_fate k r rs rest fate e s).0
  unfolding follow_fate
  follow_fate-Carries r rs rest Fate.delivered e s q = h.delivered r rs (rest e s).0 (q e s)
  follow_fate-Carries r rs rest Fate.buried e s q = h.buried r rs (rest e s).0 (q e s)
  follow_fate-Carries r rs rest Fate.returned e s q = h.returned r rs

  pub work-Carries : (rs : List Row) (e : Env) (s : St) → Q rs (work c k rs e s).0
  unfolding work
  work-Carries [] e s = h.nothing
  work-Carries (r ∷ rs) e s =
      let got = attempt c k r e s in
      follow_fate-Carries r rs (work c k rs) got.0 e got.1 (work-Carries rs)

abbrev pub occurs : ℕ → List ℕ → ℕ
occurs x ids = count (λ y. y == x) ids

-- How often an operation of the store settles a message: acks it, buries it or gives it back.
abbrev pub settles : ℕ → Act → ℕ
settles x (Act.acks fault i ids) = occurs x ids
settles x (Act.releases fault i ids) = occurs x ids
settles x (Act.dead_letters fault i id) = occurs x (id ∷ [])
settles x _ = 0

abbrev pub settled : ℕ → List Act → ℕ
settled x [] = 0
settled x (a ∷ acts) = settles x a + settled x acts

settled-append : (x : ℕ) (xs ys : List Act) → settled x (xs ++ ys) ≡ settled x xs + settled x ys
settled-append x [] ys = omega arith
settled-append x (a ∷ xs) ys = omega (arith, settled-append x xs ys)

settled-finish :
    (k : Desk) (x : ℕ) (w : Work) → settled x (finish k w) ≡ occurs x w.acked + settled x w.acts
unfolding finish
settled-finish k x w = split w.acked refl
  where
    split :
        (ids : List ℕ)
        → w.acked ≡ ids
        → settled x (finish k w) ≡ occurs x w.acked + settled x w.acts
    split [] e = rw (e, finish) (omega arith)
    split (id ∷ ids) e =
        rw (e, finish)
          (omega (arith, settled-append x w.acts (Act.acks (k.fault id) k.idx (id ∷ ids) ∷ [])))

settles_all :
    (c : Config) (k : Desk) (x : ℕ)
    → Carries c k (λ rs w. occurs x w.acked + settled x w.acts ≡ occurs x (map id_of rs))
unfolding give_back
settles_all c k x = record {
  nothing = omega arith;
  delivered = λ r rs w q. omega (arith, q);
  buried = λ r rs w q. omega (arith, q);
  returned = λ r rs. omega arith;
}

-- A worker settles every message of its batch exactly as often as the batch holds it: whatever the
-- core, the sink and the database answer, its calls of the store ack the message, bury it or give
-- it back, and no call names another message.
pub work_settles :
    (c : Config) (k : Desk) (rs : List Row) (e : Env) (s : St) (x : ℕ)
    → settled x (finish k (work c k rs e s).0) ≡ occurs x (map id_of rs)
work_settles c k rs e s x = omega (
  arith,
  settled-finish k x (work c k rs e s).0,
  work-Carries c k (λ rs w. occurs x w.acked + settled x w.acts ≡ occurs x (map id_of rs))
      (settles_all c k x) rs e s,
)
