-- ===== src/Webhooks/Config/Made.antt =====
-- What `NewAuthConfig` of webhooks/config.go makes of a user's token.
use core_go_nopgp.Base.{
  Str, codes, Bool-cases, inl, inr, str_eq, str_eq_iff, Option, none, some, ok, >>=-eq-ok,
  must-eq-ok, ok-injective, ◌≡◌, ◌≢◌, sym, refl, subst, must,
}
use core_go_nopgp.Codec.Hex
use core_go_nopgp.Errors.{nil_dereference}
use core_go_nopgp.Auth.Types.{
  AuthMethod, oauth_legacy, oauth2, cookie, internal, anon_internal, webhook, other, AuthContext,
  BearerToken,
}
use core_go_nopgp.Auth.Bearer.{timestamp_time}
use core_go_nopgp.Webhooks.Config.{AuthConfig, client_of, config_for}

-- A client ID, as it is stored: nil exactly where the token has none.
abbrev pub IsStoredId : Str → Option Str → Type 0
IsStoredId id none = id ≡ codes ""
IsStoredId id (some stored) = (stored ≡ id) × (id ≢ codes "")

pub client_of-IsStoredId : (token : BearerToken) → IsStoredId token.client_id (client_of token)
client_of-IsStoredId token = elim (Bool-cases (str_eq token.client_id (codes ""))) [
  | inl bare ↦ rw bare ((str_eq_iff token.client_id (codes "")).0 bare)
  | inr named ↦ rw named (refl, λ e. cc ((str_eq_iff token.client_id (codes "")).1 e, named))
]

pub IsStoredId-client_of :
    (token : BearerToken) (o : Option Str) → IsStoredId token.client_id o → client_of token ≡ o
IsStoredId-client_of token none e = rw ((str_eq_iff token.client_id (codes "")).1 e) refl
IsStoredId-client_of token (some stored) (same, named) =
    elim (Bool-cases (str_eq token.client_id (codes ""))) [
      | inl bare ↦ absurd (named ((str_eq_iff token.client_id (codes "")).0 bare))
      | inr n ↦ rw (n, same) refl
    ]

-- A configuration that is made of a user's OAuth 2.0 token.
pub record IsConfigOf (user : AuthContext) (token : BearerToken) (ac : AuthConfig) : Type 0 where
  pub held : user.bearer_token ≡ some token
  pub method : ac.auth_method ≡ oauth2
  pub token_hash : ac.token_hash ≡ some (Hex.encode user.token_hash)
  pub grants : ac.grants ≡ some token.grants
  pub client_id : IsStoredId token.client_id ac.client_id
  pub expires : ac.expires ≡ some (timestamp_time token.expires)
  pub node_id : ac.node_id ≡ none

config_for-oauth2 :
    (user : AuthContext) (ac : AuthConfig)
    → user.auth_method ≡ oauth2
    → config_for oauth2 user ≡ ok ac
    → (token : BearerToken) × IsConfigOf user token ac
config_for-oauth2 user ac m h =
    let (token, held, same) = >>=-eq-ok (must nil_dereference user.bearer_token) _ h in
    let made = ok-injective _ ac same in
    (
      token,
      subst (IsConfigOf user token) made (record {
        held = must-eq-ok _ _ held;
        method = m;
        token_hash = refl;
        grants = refl;
        client_id = client_of-IsStoredId token;
        expires = refl;
        node_id = refl;
      }),
    )

pub config_for-IsConfigOf :
    (m : AuthMethod) (user : AuthContext) (ac : AuthConfig)
    → user.auth_method ≡ m
    → config_for m user ≡ ok ac
    → (user.auth_method ≡ oauth2) × ((token : BearerToken) × IsConfigOf user token ac)
config_for-IsConfigOf oauth_legacy user ac e h = cc
config_for-IsConfigOf oauth2 user ac e h = (e, config_for-oauth2 user ac e h)
config_for-IsConfigOf cookie user ac e h = cc
config_for-IsConfigOf internal user ac e h = cc
config_for-IsConfigOf webhook user ac e h = cc
config_for-IsConfigOf anon_internal user ac e h = cc
config_for-IsConfigOf (other _) user ac e h = cc

pub IsConfigOf-config_for :
    (user : AuthContext) (token : BearerToken) (ac : AuthConfig)
    → user.auth_method ≡ oauth2
    → IsConfigOf user token ac
    → config_for user.auth_method user ≡ ok ac
IsConfigOf-config_for user token ac m c =
    rw (m, c.held)
      (λ i. ok (record {
        auth_method = sym c.method i;
        token_hash = sym c.token_hash i;
        grants = sym c.grants i;
        client_id = IsStoredId-client_of token ac.client_id c.client_id i;
        expires = sym c.expires i;
        node_id = sym c.node_id i;
      }))
