-- ===== src/Auth/Webhook/Laws.antt =====
-- What a webhook may do with the context that `WebhookAuth` makes for it.
use core_go_nopgp.Base.{
  Str, true, false, Option, Time, after, ok, >>=-eq-ok, ◌≡◌, refl, sym, Bool-cases, inl, inr,
  ok-injective,
}
use core_go_nopgp.Auth.Types.{AuthContext, Context, Grants, webhook, with_user}
use core_go_nopgp.Auth.Grants.{decode_grants}
use core_go_nopgp.Auth.Env.{Env}
use core_go_nopgp.Auth.Webhook.{webhook_auth}

module _ (env : Env) (ctx : Context) (auth : AuthContext) (token_hash grants : Str)
    (client_id : Option Str) (expires : Time) where
  -- The context of a webhook: the user of the event, authenticated as a webhook, with the grants of
  -- the token made read-only; the rest of the context is as it was.
  pub record IsWebhookContext (made : Context) : Type 0 where
    pub user : AuthContext
    pub decoded : Grants
    pub current : after env.now expires ≡ false
    pub made_for : made ≡ with_user ctx user
    pub method : user.auth_method ≡ webhook
    pub same_user : (user.user_id ≡ auth.user_id) × (user.username ≡ auth.username)
    pub hash : user.token_hash ≡ token_hash
    pub granted : decode_grants ctx grants ≡ ok decoded
    pub restricted : user.grants ≡ record decoded { read_only = true }

  pub webhook_auth-IsWebhookContext :
      (made : Context)
      → webhook_auth env ctx auth token_hash grants client_id expires ≡ ok made
      → IsWebhookContext made
  unfolding webhook_auth
  webhook_auth-IsWebhookContext made h = elim (Bool-cases (after env.now expires)) [
    | inl late ↦ cc (rw late at h)
    | inr current ↦
        let (decoded, granted, same) = >>=-eq-ok (decode_grants ctx grants) _ (rw current at h) in
        record {
          user = _;
          decoded = decoded;
          current = current;
          made_for = sym (ok-injective _ made same);
          method = refl;
          same_user = (refl, refl);
          hash = refl;
          granted = granted;
          restricted = refl;
        }
  ]
