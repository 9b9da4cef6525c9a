-- ===== src/Tests/Webhooks.antt =====
-- Webhooks at concrete inputs.
use core_go_nopgp.Auth.Grants.{decode_grants}
use core_go_nopgp.Base.{
  List, split, Str, ◌++◌, str_eq, ℕ, suc, pos, ℤ, codes, none, some, [], ◌∷◌, true, false, Go, ok,
  ◌>>=◌, ◌≡◌, ◌↔◌, refl,
}
use core_go_nopgp.Config.{service_name}
use core_go_nopgp.Auth.Types.{user_for_context, AuthContext, Context, BearerToken, oauth2}
use core_go_nopgp.Webhooks.Context.{
  WebhookContext, WebhookSubscription, Schema, exec, run_query, with_payload,
}
use core_go_nopgp.Webhooks.Queue.{
  Task, delivery_headers, fetch_subscriptions, DeliveryRow, queue_stage2, schedule, webhook_of,
}
use core_go_nopgp.Webhooks.Firing.{schedule-exchange}
use core_go_nopgp.Codec.Base64.Padded.{encode_std}
use core_go_nopgp.Crypto.{sign_webhook}
use core_go_nopgp.Database.Tx.{acked, read_tx}
use core_go_nopgp.Codec.Hex
use core_go_nopgp.Errors.{Error}
use core_go_nopgp.Auth.Bearer.{timestamp_time}
use core_go_nopgp.Auth.Env.{available}
use core_go_nopgp.Auth.Webhook.{webhook_auth}
use core_go_nopgp.Webhooks.Config.{AuthConfig, client_of, new_auth_config}
use core_go_nopgp.Webhooks.Context.Laws.{exec-new_auth_config}
use core_go_nopgp.Webhooks.Batch.Laws.{IsAllOrNothing}
use core_go_nopgp.Webhooks.Queue.Laws.{
  IsDelivery, AreInserted, schedule-IsAllOrNothing, schedule_of_expired,
}
use core_go_nopgp.Webhooks.Delivery.{
  Net, Response, Request, Update, exchange, deliver_payload, legacy_deliver_payload,
}
use core_go_nopgp.Webhooks.Delivery.Reasons.{IsRetry, HasReason, NoPanic, IsStored}
use core_go_nopgp.Webhooks.Delivery.Laws.{IsSigned, recording, deliver_payload-IsRetry_iff}
use core_go_nopgp.Webhooks.Batch.{Scheduled}
use core_go_nopgp.Tests.World.{
  zeros, toy_primitives, toy_keys, toy_env, toy_answers, alice_token, toy_context, at,
}
use core_go_nopgp.Tests.Tokens.{toy_documented, conf, conf-toy_keys, IsBytes-zeros}
use core_go_nopgp.Tests.Directives.{user, config, context}

abbrev full_user : AuthContext
full_user = record user { token_hash = zeros 64 }

abbrev full_context : Context
full_context = record toy_context { user = some full_user }

abbrev full_config : AuthConfig
full_config = record config { token_hash = some (Hex.encode (zeros 64)) }

abbrev subscription : WebhookSubscription
subscription = record {
  id = pos 1;
  url = codes "https://example.org";
  query = codes "{ me }";
  auth_method = oauth2;
  token_hash = some (codes "0000");
  grants = some (codes "git.sr.ht/REPOS:RW");
  client_id = some (codes "client");
  expires = some (at 2000);
  node_id = none;
}

abbrev late : WebhookSubscription
late = record subscription { id = pos 2; expires = some (at 500) }

abbrev pub toy_schema : Schema
toy_schema = record {
  is_valid = λ query. true;
  complexity = λ query. pos 1;
  respond = λ ctx query. some (codes "{}");
}

abbrev insert : DeliveryRow → ℕ → Go Error ℤ × ℕ
insert row n = (ok (pos n), suc n)

abbrev event_context : Context
event_context = record context { max_complexity = some (pos 10) }

abbrev scheduled : Scheduled ℕ Task
scheduled =
    schedule toy_env toy_schema insert event_context (codes "profile") (codes "UPDATED")
      (codes "uuid") (codes "p") toy_answers toy_answers (available (ok subscription ∷ []) none) 3

abbrev one_webhook : List WebhookContext
one_webhook =
    webhook_of toy_env toy_schema insert event_context (codes "profile") (codes "UPDATED")
      (codes "uuid") (codes "p") user subscription
    ∷ []

schedule-IsAllOrNothing_example :
    IsAllOrNothing
      (queue_stage2 toy_env toy_schema insert (with_payload event_context (codes "p")))
      (IsDelivery toy_env toy_schema insert (with_payload event_context (codes "p")))
      one_webhook
      toy_answers
      3
      scheduled
    × (scheduled.result ≡ ok tt
        → toy_answers.commit ≡ acked
        → AreInserted toy_env toy_schema insert one_webhook scheduled.enqueued 3 scheduled.state)
unfolding user_for_context fetch_subscriptions read_tx
schedule-IsAllOrNothing_example =
    schedule-IsAllOrNothing toy_env toy_schema insert event_context (codes "profile")
      (codes "UPDATED") (codes "uuid") (codes "p") toy_answers toy_answers
      (available (ok subscription ∷ []) none) user refl (subscription ∷ []) 3 refl

schedule_of_expired_example :
    ((schedule toy_env toy_schema insert event_context
        (codes "profile")
        (codes "UPDATED")
        (codes "uuid")
        (codes "p")
        toy_answers
        toy_answers
        (available (ok subscription ∷ ok late ∷ []) none)
        3).enqueued
      ≡ [])
    × ((schedule toy_env toy_schema insert event_context
          (codes "profile")
          (codes "UPDATED")
          (codes "uuid")
          (codes "p")
          toy_answers
          toy_answers
          (available (ok subscription ∷ ok late ∷ []) none)
          3).state
        ≡ 3)
unfolding user_for_context fetch_subscriptions read_tx
schedule_of_expired_example =
    schedule_of_expired toy_env toy_schema insert event_context (codes "profile") (codes "UPDATED")
      (codes "uuid") (codes "p") toy_answers toy_answers
      (available (ok subscription ∷ ok late ∷ []) none) user refl (subscription ∷ []) [] late
      (at 500) 3 refl refl refl

abbrev full_subscription : WebhookSubscription
full_subscription = record subscription { token_hash = some (Hex.encode (zeros 64)) }

exec-new_auth_config_example :
    (token : BearerToken) × (some alice_token ≡ some token)
    × (exec toy_env toy_schema event_context user full_subscription ≡ (
        webhook_auth toy_env event_context user
          (zeros 64)
          token.grants
          (client_of token)
          (timestamp_time token.expires)
        >>= run_query toy_env toy_schema (codes "{ me }")))
unfolding new_auth_config user_for_context str_eq timestamp_time
exec-new_auth_config_example =
    exec-new_auth_config toy_env toy_schema full_context full_user refl full_config
      full_subscription event_context user refl
      (record { method = refl; token_hash = refl; grants = refl; client_id = refl; expires = refl })
      (IsBytes-zeros 64) refl

abbrev toy_response : Response
toy_response = record {
  status_code = 503;
  status = codes "503 Service Unavailable";
  headers = codes "";
  read_body = λ limit. ok (codes "down");
}

abbrev toy_net : Net
toy_net = record {
  bad_url = λ url. none;
  send = λ request. ok toy_response;
  write_headers = λ headers. codes "";
}

abbrev toy_update : Update → ℕ → Go Error (Unit {0}) × ℕ
toy_update update n = (ok tt, suc n)

abbrev fired : WebhookContext
fired =
    webhook_of toy_env toy_schema insert event_context (codes "profile") (codes "UPDATED")
      (codes "uuid") (codes "p") user subscription

abbrev fired_task : Task
fired_task = record {
  webhook = fired;
  headers = delivery_headers fired;
  payload = codes "{}";
  delivery_id = pos 3;
}

abbrev fired_request : Request
fired_request = record {
  url = codes "https://example.org";
  body = codes "{}";
  headers =
      delivery_headers fired
      ++ (codes "X-Payload-Nonce", codes "00") ∷ (codes "X-Payload-Signature", codes "AQI=") ∷ [];
}

schedule-exchange_example :
    (answer : Str) × (exec toy_env toy_schema
        (with_payload event_context (codes "p"))
        user
        subscription
      ≡ ok answer)
    × IsSigned toy_primitives toy_keys
        (codes "https://example.org")
        (delivery_headers fired)
        answer
        fired_request
unfolding user_for_context fetch_subscriptions read_tx schedule exec Hex.decode webhook_auth
    decode_grants str_eq split service_name exchange sign_webhook Hex.encode encode_std
schedule-exchange_example =
    schedule-exchange toy_env toy_schema insert toy_documented conf conf-toy_keys toy_net
      event_context (codes "profile") (codes "UPDATED") (codes "uuid") (codes "p") toy_answers
      toy_answers (available (ok subscription ∷ []) none) user refl [] [] subscription 3 [] []
      fired_task (zeros 1) fired_request toy_response (codes "down") refl refl refl refl

deliver_payload-IsRetry_iff_example :
    (IsRetry
        (deliver_payload toy_net true toy_answers toy_update
          (pos 1)
          toy_primitives
          toy_keys
          (codes "https://example.org")
          []
          (some (zeros 1))
          (codes "{}")
          3).0
      ↔ HasReason toy_primitives toy_keys toy_net 262144
          (codes "https://example.org")
          []
          (some (zeros 1))
          (codes "{}")
          NoPanic
          (recording toy_net true toy_answers toy_update (pos 1) 3 false))
    × (IsRetry
          (legacy_deliver_payload toy_net true toy_answers toy_update
            (pos 1)
            toy_primitives
            toy_keys
            (codes "https://example.org")
            []
            (some (zeros 1))
            (codes "{}")
            3).0
        ↔ HasReason toy_primitives toy_keys toy_net 65536
            (codes "https://example.org")
            []
            (some (zeros 1))
            (codes "{}")
            IsStored
            (recording toy_net true toy_answers toy_update (pos 1) 3 true))
deliver_payload-IsRetry_iff_example =
    deliver_payload-IsRetry_iff toy_net true toy_answers toy_update (pos 1) toy_primitives toy_keys
      (codes "https://example.org") [] (some (zeros 1)) (codes "{}") 3
