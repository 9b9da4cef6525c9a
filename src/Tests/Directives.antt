-- ===== src/Tests/Directives.antt =====
-- The directives and the webhooks' authentication at concrete inputs.
use core_go_nopgp.Auth.Types.{
  user_for_context, AuthContext, Context, Grants, BearerToken, oauth2, webhook, ro, with_user,
}
use core_go_nopgp.Base.{
  ◌↔◌, ℕ, pos, Str, codes, str_eq, none, some, List, [], ◌∷◌, true, Go, ok, ◌≡◌, refl,
}
use core_go_nopgp.Errors.{Error}
use core_go_nopgp.Auth.Grants.{decode_grants, has}
use core_go_nopgp.Auth.Lookup.{zero_auth, scan_user}
use core_go_nopgp.Auth.Webhook.{webhook_auth}
use core_go_nopgp.Server.Directives.{access, private_only}
use core_go_nopgp.Server.Directives.Laws.{Decides, IsPrivate, access-Decides, private_only-Decides}
use core_go_nopgp.Server.Directives.Webhook.{access-webhook_auth}
use core_go_nopgp.Webhooks.Config.{
  AuthConfig, new_auth_config, filter_webhooks, Condition, not_expired, token_hash_is, client_id_is,
  user_id_is,
}
use core_go_nopgp.Webhooks.Config.Made.{IsConfigOf}
use core_go_nopgp.Webhooks.Config.Laws.{
  IsOwn, Row, new_auth_config-IsConfigOf, filter_webhooks-IsOwn,
}
use core_go_nopgp.Tests.World.{zeros, toy_env, alice_row, alice_token, toy_context, at}

abbrev pub user : AuthContext
user = record (scan_user zero_auth alice_row) {
  auth_method = oauth2;
  bearer_token = some alice_token;
  token_hash = zeros 2;
}

abbrev pub context : Context
context = with_user toy_context user

access-Decides_example :
    Decides {X = Context → Go Error ℕ}
      (λ next. next context)
      (λ next. access context next (codes "REPOS") ro)
      (has user.grants (codes "REPOS") ro ≡ ok true)
access-Decides_example = access-Decides context user refl (codes "REPOS") ro

private_only-Decides_example :
    Decides {X = Context → Go Error ℕ}
      (λ next. next context)
      (λ next. private_only context next)
      (IsPrivate oauth2 (some alice_token))
private_only-Decides_example = private_only-Decides context user refl

abbrev made : Context
made = with_user toy_context (record user {
  auth_method = webhook;
  token_hash = zeros 2;
  grants = record { read_only = true; all = true; grants = []; encoded = codes "" };
  bearer_token = some (record {
    version = 0;
    expires = pos 0;
    grants = codes "";
    client_id = codes "";
    username = codes "";
  });
})

access-webhook_auth_example :
    (decoded : Grants) × (decode_grants toy_context (codes "") ≡ ok decoded)
    × ((scope kind : Str)
        → Decides {X = Context → Go Error ℕ}
            (λ next. next made)
            (λ next. access made next scope kind)
            ((kind ≡ ro) × (has decoded scope ro ≡ ok true)))
unfolding webhook_auth decode_grants str_eq
access-webhook_auth_example =
    access-webhook_auth toy_env toy_context user (zeros 2) (codes "") none (at 2000) made refl

abbrev pub config : AuthConfig
config = record {
  auth_method = oauth2;
  token_hash = some (codes "0000");
  grants = some (codes "git.sr.ht/REPOS:RW");
  client_id = some (codes "client");
  expires = some (at 2000);
  node_id = none;
}

new_auth_config-IsConfigOf_example :
    (new_auth_config context ≡ ok config)
    ↔ ((oauth2 ≡ oauth2) × ((token : BearerToken) × IsConfigOf user token config))
new_auth_config-IsConfigOf_example = new_auth_config-IsConfigOf context user refl config

abbrev conditions : List Condition
conditions =
    not_expired
    ∷ token_hash_is (some (codes "0000"))
    ∷ client_id_is (codes "client")
    ∷ user_id_is (pos 7)
    ∷ []

abbrev row : Row
row = record {
  row_hash = some (codes "0000");
  row_client = some (codes "client");
  row_user = pos 7;
  row_expires = at 2000;
}

filter_webhooks-IsOwn_example :
    (token : BearerToken) × ((some alice_token ≡ some token) × IsOwn user token (at 1000) row)
unfolding filter_webhooks user_for_context str_eq
filter_webhooks-IsOwn_example =
    filter_webhooks-IsOwn context user refl conditions (at 1000) row refl refl
