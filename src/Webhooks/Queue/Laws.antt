-- ===== src/Webhooks/Queue/Laws.antt =====
-- A webhook is scheduled for all of its subscriptions, or for none.
use core_go_nopgp.Base.{
  map-append, subst, codes, ◌++◌, Time, after, true, some, ℤ, Str, List, [], ◌∷◌, map, Go, ok, err,
  panic, ◌≡◌, refl, ap, sym, ◌∙◌, >>=-eq-ok, ok-injective,
}
use core_go_nopgp.Errors.{Error}
use core_go_nopgp.Auth.Types.{AuthContext, Context, user_for_context}
use core_go_nopgp.Auth.Env.{Env, Rows}
use core_go_nopgp.Database.Tx.{Answers, acked}
use core_go_nopgp.Webhooks.Batch.{Scheduled, queue_each}
use core_go_nopgp.Webhooks.Batch.Laws.{
  AllPairs-middle, IsAllOrNothing, nothing, everything, run_batch-IsAllOrNothing,
  run_batch-queue_each, and_then-ok, and_then-state,
}
use core_go_nopgp.Webhooks.Context.{WebhookSubscription, WebhookContext, Schema, with_payload, exec}
use core_go_nopgp.Webhooks.Context.Laws.{exec-current}
use core_go_nopgp.Webhooks.Queue.{
  DeliveryRow, Task, delivery_headers, delivery_row, insert_delivery, queue_stage2,
  fetch_subscriptions, webhook_of, schedule,
}

module _ {S : Type 0} (env : Env) (schema : Schema)
    (insert_row : DeliveryRow → S → Go Error ℤ × S) where
  -- A task is of a webhook, and carries the answer to its subscription's query.
  abbrev pub IsDelivery : Context → WebhookContext → Task → Type 0
  IsDelivery ctx webhook task =
      (task.webhook ≡ webhook)
      × (task.headers ≡ delivery_headers webhook)
      × (exec env schema ctx webhook.user webhook.subscription ≡ ok task.payload)

  insert_delivery-IsDelivery :
      (ctx : Context) (webhook : WebhookContext) (executed : Go Error Str) (s : S) (task : Task)
      → exec env schema ctx webhook.user webhook.subscription ≡ executed
      → (insert_delivery env schema insert_row webhook executed s).0 ≡ ok task
      → IsDelivery ctx webhook task
  insert_delivery-IsDelivery ctx webhook (ok payload) s task ran h =
      let (id, _, same) = >>=-eq-ok (insert_row (delivery_row webhook payload) s).0 _ h in
      let made = ok-injective _ task same in
      (
        ap (λ (t : Task). t.webhook) (sym made),
        ap (λ (t : Task). t.headers) (sym made),
        ran ∙ ap (λ (t : Task). ok t.payload) made,
      )
  insert_delivery-IsDelivery ctx webhook (err e) s task ran h = cc
  insert_delivery-IsDelivery ctx webhook (panic e) s task ran h = cc

  -- The rows of deliveries are inserted one after the other, each with the answer that its task
  -- carries, and give the tasks their IDs.
  abbrev pub AreInserted : List WebhookContext → List Task → S → S → Type 0
  AreInserted [] [] s t = s ≡ t
  AreInserted [] (task ∷ tasks) s t = ⊥
  AreInserted (webhook ∷ webhooks) [] s t = ⊥
  AreInserted (webhook ∷ webhooks) (task ∷ tasks) s t =
      (u : S) × (insert_row
          (record {
            table = codes "gql_" ++ webhook.name ++ codes "_wh_delivery";
            uuid = webhook.payload_uuid;
            event = webhook.event;
            subscription_id = webhook.subscription.id;
            request_body = task.payload;
          })
          s
        ≡ (ok task.delivery_id, u))
      × AreInserted webhooks tasks u t

  insert_delivery-inserts :
      (webhook : WebhookContext) (executed : Go Error Str) (s : S) (task : Task)
      → (insert_delivery env schema insert_row webhook executed s).0 ≡ ok task
      → insert_row (delivery_row webhook task.payload) s
        ≡ (ok task.delivery_id, (insert_delivery env schema insert_row webhook executed s).1)
  insert_delivery-inserts webhook (ok payload) s task h =
      let (id, inserted, same) = >>=-eq-ok (insert_row (delivery_row webhook payload) s).0 _ h in
      rw (← ok-injective _ task same)
        (λ i. (inserted i, (insert_row (delivery_row webhook payload) s).1))
  insert_delivery-inserts webhook (err e) s task h = cc
  insert_delivery-inserts webhook (panic e) s task h = cc

  queue_each-AreInserted :
      (ctx : Context) (webhooks : List WebhookContext) (tasks : List Task) (s : S)
      → (queue_each (queue_stage2 env schema insert_row ctx) webhooks s).0 ≡ ok tasks
      → AreInserted webhooks tasks s
          (queue_each (queue_stage2 env schema insert_row ctx) webhooks s).1
  unfolding queue_each queue_stage2
  queue_each-AreInserted ctx [] tasks s h = rw (← ok-injective [] tasks h) refl
  queue_each-AreInserted ctx (webhook ∷ webhooks) tasks s h =
      let stage = queue_stage2 env schema insert_row ctx in
      let first = stage webhook s in
      let (task, others, made, got, same) = and_then-ok (queue_each stage webhooks) first tasks h in
      rw (same, and_then-state (queue_each stage webhooks) first task made)
        (
          first.1,
          insert_delivery-inserts webhook _ s task made,
          queue_each-AreInserted ctx webhooks others first.1 got,
        )

  queue_stage2-IsDelivery :
      (ctx : Context) (webhook : WebhookContext) (s : S) (task : Task)
      → (queue_stage2 env schema insert_row ctx webhook s).0 ≡ ok task
      → IsDelivery ctx webhook task
  unfolding queue_stage2
  queue_stage2-IsDelivery ctx webhook s task h =
      insert_delivery-IsDelivery ctx webhook _ s task refl h

  module _ (ctx : Context) (name event payload_uuid payload : Str) (reading writing : Answers)
      (rows : Rows WebhookSubscription) (user : AuthContext)
      (known : user_for_context ctx ≡ ok user) where
    abbrev outcome : S → Scheduled S Task
    outcome s =
        schedule env schema insert_row ctx name event payload_uuid payload reading writing rows s

    abbrev stage : WebhookContext → S → Go Error Task × S
    stage = queue_stage2 env schema insert_row (with_payload ctx payload)

    abbrev webhooks_of : List WebhookSubscription → List WebhookContext
    webhooks_of subs =
        map (webhook_of env schema insert_row ctx name event payload_uuid payload user) subs

    -- Where the user is known and the subscriptions could be fetched, scheduling a webhook either
    -- enqueues nothing and stores nothing, or enqueues one task for each subscription, in order,
    -- with the answer to its query, and stores the deliveries, unless the commit found the
    -- transaction done, and then nothing is stored. Where it returns and has committed, a row was
    -- inserted for each subscription, in order, with the answer that its task carries.
    pub schedule-IsAllOrNothing :
        (subs : List WebhookSubscription) (s : S)
        → fetch_subscriptions (with_payload ctx payload) reading rows ≡ ok subs
        → IsAllOrNothing stage
            (IsDelivery (with_payload ctx payload))
            (webhooks_of subs)
            writing
            s
            (outcome s)
          × ((outcome s).result ≡ ok tt
              → writing.commit ≡ acked
              → AreInserted (webhooks_of subs) (outcome s).enqueued s (outcome s).state)
    unfolding schedule
    schedule-IsAllOrNothing [] s fetched =
        rw (known, fetched) (nothing refl refl, λ done stored. refl)
    schedule-IsAllOrNothing (sub ∷ subs) s fetched =
        rw (known, fetched)
          (
            run_batch-IsAllOrNothing stage (IsDelivery (with_payload ctx payload))
                (queue_stage2-IsDelivery (with_payload ctx payload)) (webhooks_of (sub ∷ subs))
                writing s ctx.has_database,
            λ done stored.
                let (ran, left) =
                  run_batch-queue_each stage (IsDelivery (with_payload ctx payload))
                    (queue_stage2-IsDelivery (with_payload ctx payload)) (webhooks_of (sub ∷ subs))
                    writing s ctx.has_database done stored in
                subst (AreInserted (webhooks_of (sub ∷ subs)) _ s) left (
                  queue_each-AreInserted (with_payload ctx payload) (webhooks_of (sub ∷ subs)) _ s
                    ran),
          )

    -- One subscription whose token has expired stops the webhook for all: nothing is enqueued and
    -- nothing is stored.
    pub schedule_of_expired :
        (before after_it : List WebhookSubscription) (sub : WebhookSubscription) (expires : Time)
        (s : S)
        → fetch_subscriptions (with_payload ctx payload) reading rows
          ≡ ok (before ++ sub ∷ after_it)
        → sub.expires ≡ some expires
        → after env.now expires ≡ true
        → ((outcome s).enqueued ≡ []) × ((outcome s).state ≡ s)
    schedule_of_expired before after_it sub expires s fetched e late =
        elim ((schedule-IsAllOrNothing (before ++ sub ∷ after_it) s fetched).0) [
          | nothing none_queued kept ↦ (none_queued, kept)
          | everything done made state ↦
              let (task, delivery) =
                AllPairs-middle (IsDelivery (with_payload ctx payload)) (webhooks_of before)
                  (webhooks_of after_it) _ (outcome s).enqueued
                  (rw
                    (map-append
                      (webhook_of env schema insert_row ctx name event payload_uuid payload user)
                      before (sub ∷ after_it))
                    at made) in
              absurd (
                exec-current env schema (with_payload ctx payload) user sub expires task.payload e
                  late delivery.2)
        ]
