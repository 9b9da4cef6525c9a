-- ===== src/Auth/Internal.antt =====
-- `internalAuth` of auth/middleware.go.
pub mod Laws
use core_go_nopgp.Base.{
  ℕ, Str, codes, str_eq, not, ◌||◌, Bool, Option, none, some, List, any, if◌then◌else◌, Go, ok,
  ◌>>=◌, must,
}
use core_go_nopgp.Crypto.{decrypt_with_expiration}
use core_go_nopgp.Errors.{Error, unparsable_remote_address, json_programmer_error}
use core_go_nopgp.Auth.Types.{
  AuthContext, Context, InternalAuth, internal, anon_internal, with_user,
}
use core_go_nopgp.Auth.Env.{Env, IpNet}
use core_go_nopgp.Auth.Lookup.{zero_auth, auth_for_username, auth_for_oauth_client}
use core_go_nopgp.Auth.Http.{
  refused, invalid_source_ip, encryption_error, missing_id, auth_error, Handling, deny, pass_on,
  crash, also, handle,
}

abbrev empty : Str → Bool
empty s = str_eq s (codes "")

abbrev pub host_of : Str → Option Str → Str
host_of remote_addr none = remote_addr
host_of remote_addr (some host) = host

-- 30 * time.Second
abbrev pub internal_expiry : ℕ
internal_expiry = 30000000000

module _ (env : Env) (ctx : Context) where
  -- The user of an internal request: that of the OAuth client, the named one, or none.
  unfoldable pub internal_user : InternalAuth → Go Error AuthContext
  internal_user given =
      if not (empty given.oauth_client_uuid)
      then (do
        auth ← auth_for_oauth_client env ctx given.oauth_client_uuid
        ok (record auth { auth_method = internal }))
      else if not (empty given.name)
      then (do
        auth ← auth_for_username env ctx given.name
        ok (record auth { auth_method = internal }))
      else ok (record zero_auth { auth_method = anon_internal })

  -- The response to a missing ID does not end the handler.
  unfoldable pub internal_identity : InternalAuth → Handling
  internal_identity given =
      let rest =
        handle (internal_user given) (λ e. deny (refused e) 403)
          (λ auth. pass_on (with_user ctx (record auth { internal_auth = given }))) in
      if empty given.client_id || empty given.node_id
      then also (auth_error missing_id 403) rest
      else rest

  abbrev pub internal_payload : Option Str → Handling
  internal_payload none = deny encryption_error 403
  internal_payload (some payload) =
      handle (must json_programmer_error (env.unmarshal_internal payload)) crash internal_identity

  -- `internalAuth`
  unfoldable pub internal_auth : List IpNet → Str → Str → Handling
  internal_auth nets payload remote_addr =
      let host = host_of remote_addr (env.split_host_port remote_addr) in
      handle (must unparsable_remote_address (env.parse_ip host)) crash (λ ip.
        if not (any (λ net. net ip) nets)
        then deny invalid_source_ip 401
        else handle (decrypt_with_expiration env.primitives env.keys payload internal_expiry) crash
            internal_payload)
