-- ===== src/Webhooks/Context/Laws.antt =====
-- A webhook runs with the authentication that it was created with.
use mathlib.Core.Bool.{false≢true}
use core_go_nopgp.Base.{
  sym, must-eq-ok, false, after, true, ◌≢◌, must, >>=-eq-ok, ◌<◌, Str, length, All, Option, some,
  [], ◌∷◌, Time, ok, ◌>>=◌, ◌≡◌, refl, subst, ◌∙◌, ap,
}
use core_go_nopgp.Codec.Hex
use core_go_nopgp.Errors.{nil_dereference, token_hash_not_hex}
use core_go_nopgp.Auth.Types.{oauth2, AuthContext, BearerToken, Context}
use core_go_nopgp.Auth.Bearer.{timestamp_time}
use core_go_nopgp.Auth.Env.{Env}
use core_go_nopgp.Auth.Webhook.{webhook_auth}
use core_go_nopgp.Auth.Webhook.Laws.{webhook_auth-IsWebhookContext}
use core_go_nopgp.Webhooks.Config.{AuthConfig, client_of, new_auth_config}
use core_go_nopgp.Webhooks.Config.Made.{IsStoredId-client_of}
use core_go_nopgp.Webhooks.Config.Laws.{new_auth_config-IsConfigOf}
use core_go_nopgp.Webhooks.Context.{
  check_method, WebhookSubscription, Schema, copy_into, run_query, exec,
}

copy_into-length : (s : Str) → copy_into (length s) s ≡ s
unfolding copy_into
copy_into-length [] = refl
copy_into-length (c ∷ s) = ap (λ t. c ∷ t) (copy_into-length s)

-- A subscription that was stored with a configuration.
pub record IsStoredWith (ac : AuthConfig) (sub : WebhookSubscription) : Type 0 where
  pub method : sub.auth_method ≡ ac.auth_method
  pub token_hash : sub.token_hash ≡ ac.token_hash
  pub grants : sub.grants ≡ ac.grants
  pub client_id : sub.client_id ≡ ac.client_id
  pub expires : sub.expires ≡ ac.expires

module _ (env : Env) (schema : Schema) where
  exec_of_hash :
      (ctx : Context) (fired : AuthContext) (sub : WebhookSubscription) (hash grants : Str)
      (client_id : Option Str) (expires : Time)
      → sub.auth_method ≡ oauth2
      → sub.token_hash ≡ some (Hex.encode hash)
      → sub.grants ≡ some grants
      → sub.client_id ≡ client_id
      → sub.expires ≡ some expires
      → Hex.decode (Hex.encode hash) ≡ some hash
      → copy_into 64 hash ≡ hash
      → exec env schema ctx fired sub ≡ (
          webhook_auth env ctx fired hash grants client_id expires
          >>= run_query env schema sub.query)
  unfolding exec
  exec_of_hash ctx fired sub hash grants client_id expires m h g c e decoded copied =
      simp (m, h, g, c, e, decoded, copied) refl

module _ (env : Env) (schema : Schema) (creation : Context) (user : AuthContext)
    (known : creation.user ≡ some user) where
  -- A webhook that was created with a user's token runs its query, when it is fired, in the
  -- context that WebhookAuth makes with the hash, grants, client ID and expiry of this token. The
  -- condition is that the subscription is stored as it was configured and that the hash is 64
  -- bytes.
  pub exec-new_auth_config :
      (ac : AuthConfig) (sub : WebhookSubscription) (ctx : Context) (fired : AuthContext)
      → new_auth_config creation ≡ ok ac
      → IsStoredWith ac sub
      → All (λ c. c < 256) user.token_hash
      → length user.token_hash ≡ 64
      → (token : BearerToken) × (user.bearer_token ≡ some token)
        × (exec env schema ctx fired sub ≡ (
            webhook_auth env ctx fired user.token_hash token.grants
              (client_of token)
              (timestamp_time token.expires)
            >>= run_query env schema sub.query))
  exec-new_auth_config ac sub ctx fired made stored bytes size =
      let (_, (token, c)) = (new_auth_config-IsConfigOf creation user known ac).0 made in
      (
        token,
        c.held,
        exec_of_hash env schema ctx fired sub user.token_hash token.grants (client_of token)
            (timestamp_time token.expires) (stored.method ∙ c.method)
            (stored.token_hash ∙ c.token_hash) (stored.grants ∙ c.grants)
            (stored.client_id ∙ sym (IsStoredId-client_of token ac.client_id c.client_id))
            (stored.expires ∙ c.expires) (Hex.decode-encode user.token_hash bytes)
            (subst (λ n. copy_into n user.token_hash ≡ user.token_hash) size
              (copy_into-length user.token_hash)),
      )

expired-absurd :
    (now : Time) (o : Option Time) (t u : Time)
    → o ≡ some t
    → o ≡ some u
    → after now t ≡ true
    → after now u ≡ false
    → ⊥
expired-absurd now o t u e f late current =
    let same : t ≡ u = cc (e, f) in
    false≢true (sym current ∙ ap (λ v. after now v) (sym same) ∙ late)

-- A webhook whose token has expired gives no answer.
pub exec-current :
    (env : Env) (schema : Schema) (ctx : Context) (user : AuthContext) (sub : WebhookSubscription)
    (expires : Time) (answer : Str)
    → sub.expires ≡ some expires
    → after env.now expires ≡ true
    → exec env schema ctx user sub ≢ ok answer
unfolding exec
exec-current env schema ctx user sub expires answer e late h =
    let (_, _, h₁) = >>=-eq-ok (check_method sub.auth_method) _ h in
    let (hash, _, h₂) = >>=-eq-ok (must nil_dereference sub.token_hash) _ h₁ in
    let (tslice, _, h₃) = >>=-eq-ok (must token_hash_not_hex (Hex.decode hash)) _ h₂ in
    let (grants, _, h₄) = >>=-eq-ok (must nil_dereference sub.grants) _ h₃ in
    let (found, got, h₅) = >>=-eq-ok (must nil_dereference sub.expires) _ h₄ in
    let (made, authenticated, _) =
      >>=-eq-ok (webhook_auth env ctx user (copy_into 64 tslice) grants sub.client_id found) _ h₅ in
    let w =
      webhook_auth-IsWebhookContext env ctx user (copy_into 64 tslice) grants sub.client_id found
        made authenticated in
    expired-absurd env.now sub.expires expires found e (must-eq-ok _ _ got) late w.current
