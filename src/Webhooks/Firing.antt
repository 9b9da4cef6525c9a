-- ===== src/Webhooks/Firing.antt =====
-- A webhook from its scheduling to the request that its delivery sends: webhooks/queue.go with
-- webhooks/context.go and crypto/crypto.go.
use core_go_nopgp.Base.{
  map-append, length-map, ℤ, Str, Map, List, [], ◌∷◌, ◌++◌, map, length, some, Go, ok, ◌≡◌, ◌≢◌,
  ◌∙◌, sym, subst, AllPairs,
}
use core_go_nopgp.Config.{IniFile}
use core_go_nopgp.Errors.{Error}
use core_go_nopgp.Crypto.{init_crypto}
use core_go_nopgp.Crypto.Laws.{Documented}
use core_go_nopgp.Auth.Types.{AuthContext, Context, user_for_context}
use core_go_nopgp.Auth.Env.{Env, Rows}
use core_go_nopgp.Database.Tx.{Answers}
use core_go_nopgp.Webhooks.Batch.Laws.{AllPairs-at, nothing, everything}
use core_go_nopgp.Webhooks.Context.{WebhookSubscription, WebhookContext, Schema, with_payload, exec}
use core_go_nopgp.Webhooks.Delivery.{Net, Request, Response, answered, exchange}
use core_go_nopgp.Webhooks.Delivery.Laws.{IsSigned, exchange-IsSigned}
use core_go_nopgp.Webhooks.Queue.{
  DeliveryRow, Task, delivery_headers, fetch_subscriptions, webhook_of, schedule,
}
use core_go_nopgp.Webhooks.Queue.Laws.{IsDelivery, schedule-IsAllOrNothing}

append_not_nil : {A : Type 0} (xs ys : List A) (x : A) → xs ++ x ∷ ys ≢ []
append_not_nil [] ys x h = cc
append_not_nil (z ∷ xs) ys x h = cc

module _ {S : Type 0} (env : Env) (schema : Schema) (insert_row : DeliveryRow → S → Go Error ℤ × S)
    (documented : Documented env.primitives) (conf : IniFile)
    (started : init_crypto env.primitives conf ≡ ok env.keys) (net : Net) (ctx : Context)
    (name event payload_uuid payload : Str) (reading writing : Answers)
    (rows : Rows WebhookSubscription) (user : AuthContext)
    (known : user_for_context ctx ≡ ok user) where
  abbrev webhook_for : WebhookSubscription → WebhookContext
  webhook_for sub = webhook_of env schema insert_row ctx name event payload_uuid payload user sub

  -- The task at the place of a subscription is a delivery to it.
  enqueued-IsDelivery :
      (before after_it : List WebhookSubscription) (sub : WebhookSubscription) (s : S)
      (tasks_before tasks_after : List Task) (task : Task)
      → fetch_subscriptions (with_payload ctx payload) reading rows ≡ ok (before ++ sub ∷ after_it)
      → (schedule env schema insert_row ctx name event payload_uuid payload reading writing rows
          s).enqueued
        ≡ tasks_before ++ task ∷ tasks_after
      → length before ≡ length tasks_before
      → IsDelivery env schema insert_row (with_payload ctx payload) (webhook_for sub) task
  enqueued-IsDelivery before after_it sub s tasks_before tasks_after task fetched queue_now
        same_place =
      let R = IsDelivery env schema insert_row (with_payload ctx payload) in
      elim ((schedule-IsAllOrNothing env schema insert_row ctx name event payload_uuid payload
        reading writing rows user known (before ++ sub ∷ after_it) s fetched).0) [
          | nothing none_queued kept ↦
              absurd (append_not_nil tasks_before tasks_after task (sym queue_now ∙ none_queued))
          | everything done made state ↦
              AllPairs-at R (map webhook_for before) (map webhook_for after_it) (webhook_for sub)
                tasks_before tasks_after task (length-map webhook_for before ∙ same_place)
                (subst (λ ws. AllPairs R ws (tasks_before ++ task ∷ tasks_after))
                  (map-append webhook_for before (sub ∷ after_it)) (rw queue_now at made))
        ]

  -- The request that the delivery of a scheduled webhook sends carries, to the URL of the
  -- subscription at the place of its task, the answer to the query of this subscription, with the
  -- headers of the delivery and a nonce and a signature that verify with the keys of the
  -- configuration. The conditions are that the user is known, the subscriptions could be fetched,
  -- and the ciphers are as documented (`Documented`): a signature verifies with the public key of
  -- its private key, and is bytes.
  pub schedule-exchange :
      (before after_it : List WebhookSubscription) (sub : WebhookSubscription) (s : S)
      (tasks_before tasks_after : List Task) (task : Task) (seed : Str) (request : Request)
      (response : Response) (body : Str)
      → fetch_subscriptions (with_payload ctx payload) reading rows ≡ ok (before ++ sub ∷ after_it)
      → (schedule env schema insert_row ctx name event payload_uuid payload reading writing rows
          s).enqueued
        ≡ tasks_before ++ task ∷ tasks_after
      → length before ≡ length tasks_before
      → exchange env.primitives env.keys net 262144 task.webhook.subscription.url task.headers
          (some seed)
          task.payload
        ≡ answered request response body
      → (answer : Str) × (exec env schema (with_payload ctx payload) user sub ≡ ok answer)
        × IsSigned env.primitives env.keys sub.url
            (delivery_headers (webhook_for sub))
            answer
            request
  schedule-exchange before after_it sub s tasks_before tasks_after task seed request response body
        fetched queue_now same_place sent =
      let delivery =
        enqueued-IsDelivery before after_it sub s tasks_before tasks_after task fetched queue_now
          same_place in
      let (signed, _, _) =
        exchange-IsSigned env.primitives documented conf env.keys started net 262144
          task.webhook.subscription.url task.headers seed task.payload request response body sent in
      (
        task.payload,
        delivery.2,
        subst
            (λ (w : WebhookContext).
              IsSigned env.primitives env.keys w.subscription.url
                (delivery_headers (webhook_for sub)) task.payload request)
            delivery.0
            (subst
              (λ (h : Map Str).
                IsSigned env.primitives env.keys task.webhook.subscription.url h task.payload
                  request)
              delivery.1 signed),
      )
