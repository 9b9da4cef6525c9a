-- ===== src/Auth/Internal/Laws.antt =====
-- Which internal requests are let through, and what becomes of one without an ID.
use core_go_nopgp.Base.{
  Str, codes, any, true, not, ◌||◌, some, List, ok, must, must-eq-ok, ok-injective, subst,
  >>=-eq-ok, ◌≡◌, ◌≢◌, inl, inr, refl, sym, ap, ◌∙◌, Bool-cases, Option-cases, if◌then◌else◌, arith,
}
use core_go_nopgp.Crypto.{decrypt_with_expiration}
use core_go_nopgp.Errors.{unparsable_remote_address, json_programmer_error}
use core_go_nopgp.Auth.Types.{
  AuthContext, Context, InternalAuth, internal, anon_internal, user_suspended, with_user,
}
use core_go_nopgp.Auth.Env.{Env, IpNet}
use core_go_nopgp.Auth.Lookup.{zero_auth, auth_for_username, auth_for_oauth_client}
use core_go_nopgp.Auth.Lookup.Laws.{auth_for_username-ok, auth_for_oauth_client-active}
use core_go_nopgp.Auth.Http.{refused, invalid_source_ip, deny, pass_on, crash, handle}
use core_go_nopgp.Auth.Http.Laws.{Serves, Serves-handle, Serves-if, Serves-pass_on}
use core_go_nopgp.Auth.Internal.{
  empty, internal_user, internal_identity, internal_payload, host_of, internal_expiry,
  internal_auth,
}

-- The kinds of internal user: an account, which is not suspended, or none.
pub data IsInternalUser : AuthContext → Type 0 where
  account :
      {auth : AuthContext}
      → auth.auth_method ≡ internal
      → auth.user_type ≢ user_suspended
      → IsInternalUser auth
  anonymous :
      {auth : AuthContext}
      → auth.auth_method ≡ anon_internal
      → auth.user_type ≡ codes ""
      → IsInternalUser auth

module _ (env : Env) (ctx : Context) where
  -- The request came from a network of the instance, with a payload that was encrypted no longer
  -- than 30 seconds ago, and its user is as the payload says.
  pub record IsInternal (nets : List IpNet) (payload remote_addr : Str) (auth : AuthContext)
      : Type 0 where
    pub ip : Str
    pub plain : Str
    pub given : InternalAuth
    pub user : AuthContext
    pub address : env.parse_ip (host_of remote_addr (env.split_host_port remote_addr)) ≡ some ip
    pub inside : any (λ net. net ip) nets ≡ true
    pub decrypted :
        decrypt_with_expiration env.primitives env.keys payload internal_expiry ≡ ok (some plain)
    pub decoded : env.unmarshal_internal plain ≡ some given
    pub found : internal_user env ctx given ≡ ok user
    pub kind : IsInternalUser user
    pub same : auth ≡ record user { internal_auth = given }

  internal_user-kind :
      (given : InternalAuth) (user : AuthContext)
      → internal_user env ctx given ≡ ok user
      → IsInternalUser user
  unfolding internal_user
  internal_user-kind given user h = elim (Bool-cases (empty given.oauth_client_uuid)) [
    | inr client ↦
        let (found, looked_up, same) =
          >>=-eq-ok (auth_for_oauth_client env ctx given.oauth_client_uuid)
            (λ auth. ok (record auth { auth_method = internal })) (rw client at h) in
        subst IsInternalUser (ok-injective _ user same)
          (account refl (auth_for_oauth_client-active env ctx given.oauth_client_uuid looked_up))
    | inl no_client ↦ elim (Bool-cases (empty given.name)) [
      | inr named ↦
          let (found, looked_up, same) =
            >>=-eq-ok (auth_for_username env ctx given.name)
              (λ auth. ok (record auth { auth_method = internal })) (rw (no_client, named) at h) in
          subst IsInternalUser (ok-injective _ user same)
            (account refl (auth_for_username-ok env ctx given.name looked_up).1)
      | inl anon ↦
          subst IsInternalUser
            (ok-injective (record zero_auth { auth_method = anon_internal }) user
              (rw (no_client, anon) at h))
            (anonymous refl refl)
    ]
  ]

  internal_identity-Serves :
      (given : InternalAuth) (served : Context)
      → Serves (internal_identity env ctx given) served
      → (user : AuthContext) × (internal_user env ctx given ≡ ok user)
        × (served ≡ with_user ctx (record user { internal_auth = given }))
  unfolding internal_identity
  internal_identity-Serves given served h =
      let pass =
        λ (auth : AuthContext). pass_on (with_user ctx (record auth { internal_auth = given })) in
      let (user, found, h₁) =
        Serves-handle served (internal_user env ctx given) (λ e. deny (refused e) 403) pass
          (λ e x. x)
          (elim (Bool-cases (empty given.client_id || empty given.node_id)) [
            | inl missing ↦ rw missing at h
            | inr complete ↦ rw complete at h
          ]) in
      (user, found, sym (Serves-pass_on h₁))

  -- An internal request is let through only from a network of the instance, with a payload that
  -- decrypts within 30 seconds, and as the user that the payload gives: an account that is not
  -- suspended, or the anonymous user.
  pub internal_auth-IsInternal :
      (nets : List IpNet) (payload remote_addr : Str) (served : Context)
      → Serves (internal_auth env ctx nets payload remote_addr) served
      → (auth : AuthContext) × (served ≡ with_user ctx auth)
        × IsInternal nets payload remote_addr auth
  unfolding internal_auth
  internal_auth-IsInternal nets payload remote_addr served h =
      let host = host_of remote_addr (env.split_host_port remote_addr) in
      let decrypt = decrypt_with_expiration env.primitives env.keys payload internal_expiry in
      let (ip, address, h₁) =
        Serves-handle served (must unparsable_remote_address (env.parse_ip host)) crash
          (λ ip.
            if not (any (λ net. net ip) nets)
            then deny invalid_source_ip 401
            else handle decrypt crash (internal_payload env ctx))
          (λ e x. x) h in
      let (outside, h₂) =
        Serves-if served (not (any (λ net. net ip) nets)) (deny invalid_source_ip 401)
          (handle decrypt crash (internal_payload env ctx)) (λ x. x) h₁ in
      let (opened, decrypted, h₃) =
        Serves-handle served decrypt crash (internal_payload env ctx) (λ e x. x) h₂ in
      elim (Option-cases opened) [
        | inl e ↦ absurd (rw (e, internal_payload) at h₃)
        | inr (plain, e) ↦
            let (given, decoded, h₄) =
              Serves-handle served (must json_programmer_error (env.unmarshal_internal plain)) crash
                (internal_identity env ctx) (λ x y. y) (rw e at h₃) in
            let (user, found, same) = internal_identity-Serves given served h₄ in
            (
              record user { internal_auth = given },
              same,
              record {
                ip = ip;
                plain = plain;
                given = given;
                user = user;
                address = must-eq-ok _ _ address;
                inside = ground arith;
                decrypted = decrypted ∙ ap ok e;
                decoded = must-eq-ok _ _ decoded;
                found = found;
                kind = internal_user-kind given user found;
                same = refl;
              },
            )
      ]
