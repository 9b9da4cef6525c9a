-- ===== src/Webhooks/Config/Laws.antt =====
-- The invariants of `AuthConfig`, and whose webhooks a filter selects.
use core_go_nopgp.Base.{
  ℤ, Str, codes, if◌then◌else◌, str_eq, str_eq_iff, eq_ℤ, Bool, true, false, Option, none, some,
  List, Time, after, all, ok, >>=-eq-ok, ok-injective, ◌≡◌, ◌≢◌, ◌↔◌, refl, ap, subst, arith,
}
use core_go_nopgp.Codec.Hex
use core_go_nopgp.Auth.Types.{oauth2, AuthContext, BearerToken, Context, user_for_context}
use core_go_nopgp.Webhooks.Config.{
  AuthConfig, new_auth_config, conditions, filter_webhooks, Condition, not_expired, token_hash_is,
  client_id_is, user_id_is,
}
use core_go_nopgp.Webhooks.Config.Made.{
  IsStoredId, IsConfigOf, config_for-IsConfigOf, IsConfigOf-config_for,
}

module _ (ctx : Context) (user : AuthContext) (known : ctx.user ≡ some user) where
  -- NewAuthConfig returns a configuration exactly for a user who came by OAuth 2.0 with a token, and
  -- it is the one whose token hash, grants and expiry are those of the token and are not nil, whose
  -- client ID is nil if the token has none and that of the token otherwise, and whose node ID is
  -- nil.
  pub new_auth_config-IsConfigOf :
      (ac : AuthConfig)
      → (new_auth_config ctx ≡ ok ac)
        ↔ ((user.auth_method ≡ oauth2) × ((token : BearerToken) × IsConfigOf user token ac))
  unfolding new_auth_config user_for_context
  new_auth_config-IsConfigOf ac = (
    λ h. config_for-IsConfigOf user.auth_method user ac refl (simp known at h),
    λ (m, (token, c)). rw known (IsConfigOf-config_for user token ac m c),
  )

-- A row of the table of webhooks, as far as the filter looks at it.
pub record Row : Type 0 where
  pub row_hash : Option Str
  pub row_client : Option Str
  pub row_user : ℤ
  pub row_expires : Time

abbrev equals : Option Str → Option Str → Bool
equals (some a) (some b) = str_eq a b
equals _ _ = false

-- SQL's reading of a condition at a time; a comparison with NULL does not hold.
abbrev pub meets : Time → Row → Condition → Bool
meets now row not_expired = after row.row_expires now
meets now row (token_hash_is hash) = equals row.row_hash hash
meets now row (client_id_is client) = equals row.row_client (some client)
meets now row (user_id_is id) = eq_ℤ row.row_user id

abbrev pub selects : Time → List Condition → Row → Bool
selects now cs row = all (meets now row) cs

equals-eq : (a : Option Str) (b : Str) → equals a (some b) ≡ true → a ≡ some b
equals-eq none b h = cc
equals-eq (some a) b h = ap some ((str_eq_iff a b).0 h)

eq_ℤ-eq : (a b : ℤ) → eq_ℤ a b ≡ true → a ≡ b
eq_ℤ-eq a b h = ground arith

-- Whose webhook a row is: the user's, not expired, and made with the same token of the same client
-- if the request comes from a client.
pub record IsOwn (user : AuthContext) (token : BearerToken) (now : Time) (row : Row) : Type 0 where
  pub same_user : row.row_user ≡ user.user_id
  pub current : after row.row_expires now ≡ true
  pub same_client :
      token.client_id ≢ codes ""
      → (row.row_hash ≡ some (Hex.encode user.token_hash)) × (row.row_client ≡ some token.client_id)

both : (a b : Bool) → (if a then b else false) ≡ true → (a ≡ true) × (b ≡ true)
both true b h = (refl, h)
both false b h = cc

module _ (user : AuthContext) (token : BearerToken) (ac : AuthConfig)
    (made : IsConfigOf user token ac) where
  plain-IsOwn :
      (now : Time) (row : Row)
      → token.client_id ≡ codes ""
      → selects now (conditions user ac none) row ≡ true
      → IsOwn user token now row
  plain-IsOwn now row bare h =
      let (current, rest) = both _ _ h in
      record {
        same_user = eq_ℤ-eq _ _ (both _ _ rest).0;
        current = current;
        same_client = λ named. absurd (named bare);
      }

  client-IsOwn :
      (now : Time) (row : Row)
      → selects now (conditions user ac (some token.client_id)) row ≡ true
      → IsOwn user token now row
  client-IsOwn now row h =
      let (current, rest) = both _ _ h in
      let (hash, rest) = both _ _ rest in
      let (client, rest) = both _ _ rest in
      record {
        same_user = eq_ℤ-eq _ _ (both _ _ rest).0;
        current = current;
        same_client = λ _. (
          equals-eq _ _ (subst (λ o. equals row.row_hash o ≡ true) made.token_hash hash),
          equals-eq _ _ client,
        );
      }

  conditions-IsOwn :
      (now : Time) (row : Row) (o : Option Str)
      → IsStoredId token.client_id o
      → selects now (conditions user ac o) row ≡ true
      → IsOwn user token now row
  conditions-IsOwn now row none bare h = plain-IsOwn now row bare h
  conditions-IsOwn now row (some stored) (same, named) h = client-IsOwn now row (rw same at h)

  selected-IsOwn :
      (cs : List Condition) (now : Time) (row : Row)
      → conditions user ac ac.client_id ≡ cs
      → selects now cs row ≡ true
      → IsOwn user token now row
  selected-IsOwn cs now row same h =
      conditions-IsOwn now row ac.client_id made.client_id (rw same h)

user_of_known :
    (ctx : Context) (user : AuthContext) → ctx.user ≡ some user → user_for_context ctx ≡ ok user
unfolding user_for_context
user_of_known ctx user known = simp known refl

module _ (ctx : Context) (user : AuthContext) (known : ctx.user ≡ some user) where
  -- Each row that the conditions of FilterWebhooks select at a time belongs to the user of the
  -- request and is not expired. If the user's token has a client ID, the row has the hash of this
  -- token and this client ID too.
  pub filter_webhooks-IsOwn :
      (cs : List Condition) (now : Time) (row : Row)
      → filter_webhooks ctx ≡ ok cs
      → selects now cs row ≡ true
      → (token : BearerToken) × ((user.bearer_token ≡ some token) × IsOwn user token now row)
  unfolding filter_webhooks
  filter_webhooks-IsOwn cs now row h chosen =
      let (reader, got, read) = >>=-eq-ok (user_for_context ctx) _ h in
      let (ac, made, same) = >>=-eq-ok (new_auth_config ctx) _ read in
      let is_reader : user ≡ reader =
        ok-injective user reader (rw (user_of_known ctx user known) at got) in
      let (_, (token, config)) = (new_auth_config-IsConfigOf ctx user known ac).0 made in
      (
        token,
        (
          config.held,
          selected-IsOwn user token ac config cs now row (rw is_reader (ok-injective _ _ same))
              chosen,
        ),
      )
