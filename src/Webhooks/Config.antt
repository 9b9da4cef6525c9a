-- ===== src/Webhooks/Config.antt =====
-- webhooks/config.go: the authentication that a webhook is created with.
pub mod Made
pub mod Laws
use core_go_nopgp.Base.{
  ℤ, Str, codes, str_eq, not, Bool, true, false, Option, none, some, List, [], ◌∷◌, Time,
  if◌then◌else◌, Go, ok, err, panic, ◌>>=◌, must,
}
use core_go_nopgp.Codec.Hex
use core_go_nopgp.Errors.{
  Error, nil_dereference, legacy_unsupported, web_unsupported, internal_unsupported,
  recursive_webhook, unreachable,
}
use core_go_nopgp.Auth.Types.{
  AuthMethod, oauth_legacy, oauth2, cookie, internal, webhook, AuthContext, BearerToken, Context,
  user_for_context,
}
use core_go_nopgp.Auth.Bearer.{timestamp_time}

pub record AuthConfig : Type 0 where
  pub auth_method : AuthMethod
  pub token_hash : Option Str
  pub grants : Option Str
  pub client_id : Option Str
  pub expires : Option Time
  pub node_id : Option Str

abbrev pub client_of : BearerToken → Option Str
client_of token = if not (str_eq token.client_id (codes "")) then some token.client_id else none

abbrev config_for : AuthMethod → AuthContext → Go Error AuthConfig
config_for oauth_legacy user = err legacy_unsupported
config_for oauth2 user = do
  token ← must nil_dereference user.bearer_token
  ok (record {
    auth_method = user.auth_method;
    token_hash = some (Hex.encode user.token_hash);
    grants = some token.grants;
    client_id = client_of token;
    expires = some (timestamp_time token.expires);
    node_id = none;
  })
config_for cookie user = err web_unsupported
config_for internal user = panic internal_unsupported
config_for webhook user = panic recursive_webhook
config_for _ user = panic unreachable

-- `NewAuthConfig`
unfoldable pub new_auth_config : Context → Go Error AuthConfig
unfolding Hex.encode
new_auth_config ctx = do user ← user_for_context ctx; config_for user.auth_method user

-- The conditions of the SQL expressions, which are joined by AND.
pub data Condition : Type 0 where
  not_expired : Condition
  token_hash_is : Option Str → Condition
  client_id_is : Str → Condition
  user_id_is : ℤ → Condition

abbrev conditions : AuthContext → AuthConfig → Option Str → List Condition
conditions user ac (some client_id) =
    not_expired
    ∷ token_hash_is ac.token_hash
    ∷ client_id_is client_id
    ∷ user_id_is user.user_id
    ∷ []
conditions user ac none = not_expired ∷ user_id_is user.user_id ∷ []

-- `FilterWebhooks`
unfoldable pub filter_webhooks : Context → Go Error (List Condition)
unfolding new_auth_config
filter_webhooks ctx = do
  user ← user_for_context ctx
  ac ← new_auth_config ctx
  ok (conditions user ac ac.client_id)
