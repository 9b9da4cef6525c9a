-- ===== src/Webhooks/Queue.antt =====
-- webhooks/queue.go: scheduling webhooks. The table of deliveries is part of what the database
-- holds, S; how a row is inserted there is a parameter.
pub mod Laws
use core_go_nopgp.Base.{
  panicking, ℤ, Str, codes, Bool, true, false, Option, none, some, List, [], ◌∷◌, ◌++◌, Map, map,
  Go, ok, err, panic, ◌>>=◌, ◌>>◌, must,
}
use core_go_nopgp.Errors.{Error}
use core_go_nopgp.Auth.Types.{AuthContext, Context, user_for_context}
use core_go_nopgp.Auth.Env.{Env, Rows, unavailable, available}
use core_go_nopgp.Database.Tx.{Answers, read_tx}
use core_go_nopgp.Webhooks.Batch.{Scheduled, not_scheduled, run_batch}
use core_go_nopgp.Webhooks.Context.{WebhookSubscription, WebhookContext, Schema, with_payload, exec}

-- The row of a delivery when it is made.
pub record DeliveryRow : Type 0 where
  pub table : Str
  pub uuid : Str
  pub event : Str
  pub subscription_id : ℤ
  pub request_body : Str

-- The task that delivers a webhook, by what its function holds on to.
pub record Task : Type 0 where
  pub webhook : WebhookContext
  pub headers : Map Str
  pub payload : Str
  pub delivery_id : ℤ

abbrev pub delivery_headers : WebhookContext → Map Str
delivery_headers webhook =
    (codes "Content-Type", codes "application/json")
    ∷ (codes "X-Webhook-Event", webhook.event)
    ∷ (codes "X-Webhook-Delivery", webhook.payload_uuid)
    ∷ []

abbrev delivery_row : WebhookContext → Str → DeliveryRow
delivery_row webhook payload = record {
  table = codes "gql_" ++ webhook.name ++ codes "_wh_delivery";
  uuid = webhook.payload_uuid;
  event = webhook.event;
  subscription_id = webhook.subscription.id;
  request_body = payload;
}

-- The loop over the rows; an error that rows.Err would give is not asked for.
unfoldable pub scan_subscriptions :
    List (Go Error WebhookSubscription) → Go Error (List WebhookSubscription)
scan_subscriptions [] = ok []
scan_subscriptions (row ∷ rows) = do
  sub ← panicking row
  subs ← scan_subscriptions rows
  ok (sub ∷ subs)

abbrev subscriptions_from_rows : Rows WebhookSubscription → Go Error (List WebhookSubscription)
subscriptions_from_rows (unavailable e) = err e
subscriptions_from_rows (available rows rows_err) = scan_subscriptions rows

-- `fetchSubscriptions`, with the answers to its transaction and the rows that the event selects.
unfoldable pub fetch_subscriptions :
    Context → Answers → Rows WebhookSubscription → Go Error (List WebhookSubscription)
unfolding scan_subscriptions
fetch_subscriptions ctx answers rows =
    read_tx ctx.has_database answers (subscriptions_from_rows rows)

module _ {S : Type 0} (env : Env) (schema : Schema)
    (insert_row : DeliveryRow → S → Go Error ℤ × S) where
  abbrev task_of : WebhookContext → Str → Go Error ℤ → Go Error Task
  task_of webhook payload inserted = do
    delivery_id ← inserted
    ok (record {
      webhook = webhook;
      headers = delivery_headers webhook;
      payload = payload;
      delivery_id = delivery_id;
    })

  abbrev insert_delivery : WebhookContext → Go Error Str → S → Go Error Task × S
  insert_delivery webhook (ok payload) s =
      let (inserted, t) = insert_row (delivery_row webhook payload) s in
      (task_of webhook payload inserted, t)
  insert_delivery webhook (err e) s = (err e, s)
  insert_delivery webhook (panic e) s = (panic e, s)

  -- `queueStage2`
  unfoldable pub queue_stage2 : Context → WebhookContext → S → Go Error Task × S
  queue_stage2 ctx webhook s =
      insert_delivery webhook (exec env schema ctx webhook.user webhook.subscription) s

  module _ (ctx : Context) (name event payload_uuid payload : Str) where
    abbrev pub webhook_of : AuthContext → WebhookSubscription → WebhookContext
    webhook_of user sub = record {
      name = name;
      event = event;
      user = user;
      payload = payload;
      payload_uuid = payload_uuid;
      subscription = sub;
    }

    abbrev pub queue_subscriptions :
        Answers → AuthContext → Go Error (List WebhookSubscription) → S → Scheduled S Task
    queue_subscriptions answers user (err e) s = not_scheduled (err e) s
    queue_subscriptions answers user (panic e) s = not_scheduled (panic e) s
    queue_subscriptions answers user (ok []) s = not_scheduled (ok tt) s
    queue_subscriptions answers user (ok (sub ∷ subs)) s =
        run_batch (queue_stage2 (with_payload ctx payload)) ctx.has_database answers
          (map (webhook_of user) (sub ∷ subs)) s

    abbrev pub schedule_for :
        Answers → Answers → Rows WebhookSubscription → Go Error AuthContext → S → Scheduled S Task
    schedule_for reading writing rows (err e) s = not_scheduled (err e) s
    schedule_for reading writing rows (panic e) s = not_scheduled (panic e) s
    schedule_for reading writing rows (ok user) s =
        queue_subscriptions writing user
          (fetch_subscriptions (with_payload ctx payload) reading rows) s

    -- `schedule`, with the answers to its two transactions.
    unfoldable pub schedule : Answers → Answers → Rows WebhookSubscription → S → Scheduled S Task
    unfolding queue_stage2 run_batch fetch_subscriptions
    schedule reading writing rows s = schedule_for reading writing rows (user_for_context ctx) s

    abbrev logged : Go Error (Unit {0}) → Go Error (Unit {0})
    logged (err e) = ok tt
    logged result = result

    -- `Schedule`, which logs the error.
    unfoldable pub schedule_logged :
        Answers → Answers → Rows WebhookSubscription → S → Scheduled S Task
    unfolding schedule
    schedule_logged reading writing rows s =
        let out = schedule reading writing rows s in record out { result = logged out.result }
