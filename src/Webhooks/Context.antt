-- ===== src/Webhooks/Context.antt =====
-- webhooks/context.go: running the query of a webhook. The GraphQL executor is gqlgen's, and is a
-- parameter.
pub mod Laws
use core_go_nopgp.Base.{
  ℕ, zero, suc, ℤ, lt_ℤ, Str, Bool, true, false, Option, none, some, List, [], ◌∷◌, Time,
  if◌then◌else◌, Go, ok, err, panic, ◌>>=◌, ◌>>◌, must,
}
use core_go_nopgp.Codec.Hex
use core_go_nopgp.Errors.{
  Error, nil_dereference, no_webhook_context, todo, token_hash_not_hex, invalid_query, no_server,
  too_complex, json_programmer_error,
}
use core_go_nopgp.Auth.Types.{AuthMethod, oauth2, AuthContext, Context}
use core_go_nopgp.Auth.Env.{Env}
use core_go_nopgp.Auth.Webhook.{webhook_auth}

-- `WebhookSubscription` of webhooks/queue.go.
pub record WebhookSubscription : Type 0 where
  pub id : ℤ
  pub url : Str
  pub query : Str
  pub auth_method : AuthMethod
  pub token_hash : Option Str
  pub grants : Option Str
  pub client_id : Option Str
  pub expires : Option Time
  pub node_id : Option Str

pub record WebhookContext : Type 0 where
  pub name : Str
  pub event : Str
  pub user : AuthContext
  pub payload : Str
  pub payload_uuid : Str
  pub subscription : WebhookSubscription

-- `Context`
abbrev pub with_payload : Context → Str → Context
with_payload ctx payload = record ctx { payload = some payload }

-- `Payload`
unfoldable pub payload_for_context : Context → Go Error Str
payload_for_context ctx = elim ctx.payload [ none ↦ err no_webhook_context | some p ↦ ok p ]

-- What gqlgen does with a query: it parses and validates it, weighs it, and answers it in a
-- context; `none` is an answer that cannot be written as JSON.
pub record Schema : Type 0 where
  pub is_valid : Str → Bool
  pub complexity : Str → ℤ
  pub respond : Context → Str → Option Str

-- copy into an array of n bytes: what is too long is cut off, what is short is filled with zeros.
unfoldable pub copy_into : ℕ → Str → Str
copy_into zero s = []
copy_into (suc n) [] = 0 ∷ copy_into n []
copy_into (suc n) (c ∷ s) = c ∷ copy_into n s

abbrev check_method : AuthMethod → Go Error (Unit {0})
check_method oauth2 = ok tt
check_method _ = panic todo

module _ (env : Env) (schema : Schema) where
  -- The part of `Exec` after `WebhookAuth`.
  unfoldable pub run_query : Str → Context → Go Error Str
  run_query query ctx = do
    if schema.is_valid query then ok tt else panic invalid_query
    max_complexity ← must no_server ctx.max_complexity
    if lt_ℤ max_complexity (schema.complexity query)
        then err (too_complex (schema.complexity query) max_complexity)
        else must json_programmer_error (schema.respond ctx query)

  -- `Exec`
  unfoldable pub exec : Context → AuthContext → WebhookSubscription → Go Error Str
  unfolding run_query copy_into
  exec ctx user sub = do
    check_method sub.auth_method
    hash ← must nil_dereference sub.token_hash
    tslice ← must token_hash_not_hex (Hex.decode hash)
    grants ← must nil_dereference sub.grants
    expires ← must nil_dereference sub.expires
    made ← webhook_auth env ctx user (copy_into 64 tslice) grants sub.client_id expires
    run_query sub.query made

-- `Validate`
unfoldable pub validate : Schema → Str → Go Error (Unit {0})
validate schema query = if schema.is_valid query then ok tt else err invalid_query
