-- ===== src/WorkerExamples.antt =====
-- The theorems about the workers at concrete inputs.
use cmek.Base.{ℕ, ◌+◌, ◌≡◌, arith, codes, List, [], ◌∷◌, ◌++◌, map, none, some, false}
use cmek.Core.Types.{Envelope}
use cmek.Core.Run.{Env}
use cmek.Core.Renewal.{IsFaithful}
use cmek.Core.Sections.{tick-Inv}
use cmek.Core.Sweep.{tick}
use cmek.Sink.{Delivery}
use cmek.Queue.Rows.{Row, RowState}
use cmek.Queue.Store.{Store, Cursor, claim, census}
use cmek.Queue.Histories.{Act, perform, empty_store}
use cmek.Queue.Workers.{Desk, id_of, work, finish}
use cmek.Queue.Workers.Disposal.{occurs, settled, work_settles}
use cmek.Queue.Workers.Shifts.{Shop, asked, workers_conserve}
use cmek.Queue.Workers.Lateness.{no_late_delivery}
use cmek.Examples.{demo, warm_tenant-Inv, revoked_world, start, clear}

abbrev stored : ℕ → Row
stored id = record {
  id = id;
  tenant = 1;
  dek_id = codes "t-0007/1";
  ciphertext = codes "hello";
  state = RowState.ready;
  attempts = 0;
  enqueued_at = 50;
  claimed_until = none;
}

abbrev two_rows : List Row
two_rows = stored 5 ∷ stored 6 ∷ []

abbrev desk : Desk
desk = record {
  idx = 1;
  tenant = codes "t-0007";
  aead = clear;
  deliver = λ id text. Delivery.delivered;
  is_stopping = λ id. false;
  fault = λ id. false;
}

work_settles_example :
    settled 6 (finish desk (work demo desk two_rows revoked_world start).0)
    ≡ occurs 6 (map id_of two_rows)
work_settles_example = work_settles demo desk two_rows revoked_world start 6

-- Every id below ten was given out for tenant 1.
abbrev owner : ℕ → ℕ
owner id = 1

abbrev letter : Envelope
letter = record { dek_id = codes "t-0007/1"; ciphertext = codes "hello" }

abbrev shop_start : Store
shop_start = perform (Act.inserts false 100 1 5 letter) (empty_store 2)

-- A claim that is lost to its worker, one that gives its batch, and a sweep before any of its calls.
abbrev shop_lost : Store
shop_lost = perform (Act.claims false (Cursor.lost 0) 300 1 8) shop_start

abbrev shop_swept : Store
shop_swept = perform (Act.reclaims false 400) shop_lost

abbrev shop_claimed : Store
shop_claimed = perform (Act.claims false Cursor.drained 900 1 8) shop_swept

abbrev todo_lost : List Act
todo_lost =
    [] ++ asked demo desk start revoked_world (claim false (Cursor.lost 0) 300 1 8 shop_start).0

abbrev todo_claimed : List Act
todo_claimed =
    todo_lost
    ++ asked demo desk start revoked_world (claim false Cursor.drained 900 1 8 shop_swept).0

shop_claimed-Shop : Shop owner 2 demo shop_claimed todo_claimed
shop_claimed-Shop =
    Shop.claims desk false Cursor.drained 900 8 revoked_world start shop_swept todo_lost
      (Shop.reclaims false 400 shop_lost todo_lost (
        Shop.claims desk false (Cursor.lost 0) 300 8 revoked_world start shop_start []
          (Shop.inserts false 100 5 letter (empty_store 2) [] Shop.opens (omega arith))
          (omega arith)))
      (omega arith)

workers_conserve_example :
    let k = census shop_claimed in
    k.accepted 1 ≡ k.delivered 1 + k.ready 1 + k.claimed 1 + k.expired 1 + k.dead 1
workers_conserve_example =
    workers_conserve owner 2 demo shop_claimed todo_claimed 1 shop_claimed-Shop

-- The same world with a clock past the bound of a revocation at 150.
abbrev pub late_world : Env
late_world = record revoked_world {
  now = λ n. 40_000_000_000 + n;
  others = λ n t. (tick demo (40_000_000_000 + n) t).1;
}

pub late_world-IsFaithful : IsFaithful demo (some 150) late_world
late_world-IsFaithful = record {
  ticking = λ n. omega arith;
  refused = λ n h. cc;
  joined = λ n j h. cc;
  rely = λ n t v. tick-Inv demo (some 150) (40_000_000_000 + n) t v;
}

no_late_delivery_example : (work demo desk two_rows late_world start).0.acked ≡ []
no_late_delivery_example =
    no_late_delivery demo 150 late_world start desk two_rows late_world-IsFaithful
      (λ n. omega arith) warm_tenant-Inv
