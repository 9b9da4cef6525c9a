-- ===== src/Webhooks/Legacy/Schedule.antt =====
-- webhooks/legacy.go: scheduling a legacy webhook. `Schedule` fetches the subscriptions and
-- enqueues one task, which stores a delivery for each and enqueues the tasks that deliver them.
-- How headers are written and a row is inserted, and the UUIDs, are parameters.
pub mod Laws
use core_go_nopgp.Base.{
  ℕ, suc, ℤ, negsuc, Str, codes, Bool, Option, none, some, List, [], ◌∷◌, ◌++◌, Map, Go, ok, err,
  panic, ◌>>=◌,
}
use core_go_nopgp.Errors.{Error}
use core_go_nopgp.Auth.Types.{Context}
use core_go_nopgp.Auth.Env.{Rows}
use core_go_nopgp.Database.Tx.{Answers}
use core_go_nopgp.Webhooks.Batch.{Scheduled, run_batch}
use core_go_nopgp.Webhooks.Legacy.{LegacySubscription, LegacyRow, fetch_legacy_subscriptions}

-- The row of a legacy delivery when it is made; it is created at the database's time.
pub record LegacyDeliveryRow : Type 0 where
  pub table : Str
  pub uuid : Str
  pub event : Str
  pub url : Str
  pub payload : Str
  pub payload_headers : Str
  pub response_status : ℤ
  pub subscription_id : ℤ

-- The task that delivers a legacy webhook, by what its function holds on to.
pub record LegacyDelivery : Type 0 where
  pub name : Str
  pub url : Str
  pub headers : Map Str
  pub payload : Str
  pub delivery_id : ℤ
  -- Retries(5)
  pub retries : ℕ

-- The task that `Schedule` enqueues, by what its function holds on to.
pub record LegacyTask : Type 0 where
  pub name : Str
  pub event : Str
  pub payload : Str
  pub subscriptions : List LegacySubscription

abbrev pub legacy_headers : Str → Str → Map Str
legacy_headers event uuid =
    (codes "Content-Type", codes "application/json")
    ∷ (codes "X-Webhook-Event", event)
    ∷ (codes "X-Webhook-Delivery", uuid)
    ∷ []

abbrev legacy_task :
    Str → Str → Str → Go Error (List LegacySubscription) → Go Error (Option LegacyTask)
legacy_task name event payload (err e) = panic e
legacy_task name event payload (panic e) = panic e
legacy_task name event payload (ok []) = ok none
legacy_task name event payload (ok (sub ∷ subs)) =
    ok (some (record { name = name; event = event; payload = payload; subscriptions = sub ∷ subs }))

-- `Schedule`: the task that it enqueues, if any. An error of the fetching is a panic.
unfoldable pub legacy_schedule :
    Context → Answers → Str → Str → Str → Rows LegacyRow → Go Error (Option LegacyTask)
unfolding fetch_legacy_subscriptions
legacy_schedule ctx answers name event payload rows =
    legacy_task name event payload (fetch_legacy_subscriptions ctx answers event rows)

-- The subscriptions, each with the UUID that the call of uuid.New for it gives.
abbrev pub with_uuids : (ℕ → Str) → ℕ → List LegacySubscription → List (Str × LegacySubscription)
with_uuids new_uuid i [] = []
with_uuids new_uuid i (sub ∷ subs) = (new_uuid i, sub) ∷ with_uuids new_uuid (suc i) subs

module _ {S : Type 0} (write_headers : Map Str → Str)
    (insert_row : LegacyDeliveryRow → S → Go Error ℤ × S) where
  abbrev pub legacy_row : Str → Str → Str → Str → LegacySubscription → LegacyDeliveryRow
  legacy_row name event payload uuid sub = record {
    table = name ++ codes "_webhook_delivery";
    uuid = uuid;
    event = event;
    url = sub.url;
    payload = payload;
    payload_headers = write_headers (legacy_headers event uuid);
    response_status = negsuc 1;
    subscription_id = sub.id;
  }

  abbrev pub legacy_delivery : Str → Str → Str → Str → LegacySubscription → ℤ → LegacyDelivery
  legacy_delivery name event payload uuid sub id = record {
    name = name;
    url = sub.url;
    headers = legacy_headers event uuid;
    payload = payload;
    delivery_id = id;
    retries = 5;
  }

  -- `queueStage2`
  unfoldable pub legacy_stage2 :
      Str → Str → Str → Str × LegacySubscription → S → Go Error LegacyDelivery × S
  legacy_stage2 name event payload (uuid, sub) s =
      let (inserted, t) = insert_row (legacy_row name event payload uuid sub) s in
      ((do id ← inserted; ok (legacy_delivery name event payload uuid sub id)), t)

  -- The function of the task, with the UUIDs and the answers to its transaction.
  unfoldable pub run_legacy_task :
      (ℕ → Str) → Bool → Answers → LegacyTask → S → Scheduled S LegacyDelivery
  unfolding legacy_stage2 run_batch
  run_legacy_task new_uuid has_database answers task s =
      run_batch (legacy_stage2 task.name task.event task.payload) has_database answers
        (with_uuids new_uuid 0 task.subscriptions) s
