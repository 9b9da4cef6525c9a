-- ===== src/Server/Directives/Webhook.antt =====
-- The directives in the context of a webhook, which auth/middleware.go makes.
use core_go_nopgp.Base.{Str, Option, Time, Go, ok, true, ◌≡◌, ◌↔◌, ap, sym, ◌∙◌}
use core_go_nopgp.Errors.{Error}
use core_go_nopgp.Auth.Types.{webhook, AuthMethod, AuthContext, Context, Grants, ro}
use core_go_nopgp.Auth.Env.{Env}
use core_go_nopgp.Auth.Grants.{decode_grants, has}
use core_go_nopgp.Auth.Grants.Access.{has-restricted}
use core_go_nopgp.Auth.Webhook.{webhook_auth}
use core_go_nopgp.Auth.Webhook.Laws.{webhook_auth-IsWebhookContext}
use core_go_nopgp.Server.Directives.{access}
use core_go_nopgp.Server.Directives.Laws.{Decides, Decides-iff, MayAccess, access-Decides}

MayAccess-webhook :
    (m : AuthMethod) (g decoded : Grants) (scope kind : Str)
    → m ≡ webhook
    → g ≡ record decoded { read_only = true }
    → MayAccess m g scope kind ↔ ((kind ≡ ro) × (has decoded scope ro ≡ ok true))
MayAccess-webhook m g decoded scope kind as_webhook restricted =
    simp (as_webhook, restricted)
      (
        λ (k, h). (k, sym (has-restricted decoded scope).0 ∙ (rw k at h)),
        λ (k, h). (k, rw k ((has-restricted decoded scope).0 ∙ h)),
      )

module _ (env : Env) (ctx : Context) (auth : AuthContext) (token_hash grants : Str)
    (client_id : Option Str) (expires : Time) where
  -- In the context of a webhook Access runs a resolver exactly for reading, and exactly where the
  -- grants of the token that created the webhook let it read the scope: never to write, whatever
  -- those grants are.
  pub access-webhook_auth :
      {A : Type 0} (made : Context)
      → webhook_auth env ctx auth token_hash grants client_id expires ≡ ok made
      → (decoded : Grants) × (decode_grants ctx grants ≡ ok decoded)
        × ((scope kind : Str)
            → Decides {X = Context → Go Error A}
                (λ next. next made)
                (λ next. access made next scope kind)
                ((kind ≡ ro) × (has decoded scope ro ≡ ok true)))
  access-webhook_auth made h =
      let w =
        webhook_auth-IsWebhookContext env ctx auth token_hash grants client_id expires made h in
      (
        w.decoded,
        w.granted,
        λ scope kind.
            Decides-iff
              (MayAccess-webhook w.user.auth_method w.user.grants w.decoded scope kind w.method
                w.restricted)
              (access-Decides made w.user (ap (λ (c : Context). c.user) w.made_for) scope kind),
      )
