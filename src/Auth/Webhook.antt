-- ===== src/Auth/Webhook.antt =====
-- `WebhookAuth` of auth/middleware.go.
pub mod Laws
use core_go_nopgp.Base.{
  ℤ, Str, codes, true, Option, none, some, Time, after, if◌then◌else◌, Go, ok, err, ◌>>=◌,
}
use core_go_nopgp.Errors.{Error, expired_webhook_token}
use core_go_nopgp.Auth.Types.{AuthContext, BearerToken, Context, webhook, with_user}
use core_go_nopgp.Auth.Grants.{decode_grants}
use core_go_nopgp.Auth.Env.{Env}

abbrev or_no_client : Option Str → BearerToken → BearerToken
or_no_client none token = token
or_no_client (some client_id) token = record token { client_id = client_id }

abbrev zero_token : BearerToken
zero_token = record {
  version = 0;
  expires = ℤ.pos 0;
  grants = codes "";
  client_id = codes "";
  username = codes "";
}

module _ (env : Env) (ctx : Context) where
  -- `WebhookAuth`
  unfoldable pub webhook_auth : AuthContext → Str → Str → Option Str → Time → Go Error Context
  webhook_auth auth token_hash grants client_id expires =
      if after env.now expires then err expired_webhook_token else do
        decoded ← decode_grants ctx grants
        ok (
            with_user ctx (record auth {
              auth_method = webhook;
              token_hash = token_hash;
              grants = record decoded { read_only = true };
              bearer_token = some (or_no_client client_id zero_token);
            }))
