-- ===== src/Tests/Requests.antt =====
-- Requests through the middleware at concrete inputs.
use core_go_nopgp.Auth.Bearer.{timestamp_time, decode_bearer_token}
use core_go_nopgp.Auth.Oauth2.Threads.{step, State, live, called, lookup, revocation, Reach}
use core_go_nopgp.Client.{execute}
use core_go_nopgp.Codec.Base64.{decode_raw, encode_raw}
use core_go_nopgp.Config.{conf_for_context, get_origin, service_name}
use core_go_nopgp.Crypto.{
  bearer_verify, encrypt, decrypt_with_expiration, decrypt_without_expiration,
}
use core_go_nopgp.Auth.Legacy.{legacy_decide, LegacyToken, token_from_rows, legacy_oauth}
use core_go_nopgp.Auth.Lookup.{
  auth_for_username, check_suspended, lookup_user, zero_auth, scan_user, lookup_token_revocation,
}
use core_go_nopgp.Database.Tx.{read_tx, runs_fn}
use core_go_nopgp.Base.{
  ◌≤◌, pos, codes, str_eq, has_prefix, some, [], ◌∷◌, true, false, ok, ◌≡◌, ◌↔◌, ◌⊎◌, inl, refl,
  Bool, Go,
}
use core_go_nopgp.Auth.Types.{AuthContext, cookie, oauth_legacy, internal, with_user}
use core_go_nopgp.Auth.Middleware.Once.{calls-middleware}
use core_go_nopgp.Auth.Http.Laws.{calls, Serves}
use core_go_nopgp.Auth.Cookie.{cookie_auth}
use core_go_nopgp.Auth.Internal.{internal_auth, internal_user, internal_identity}
use core_go_nopgp.Auth.Internal.Laws.{IsInternal, internal_auth-IsInternal}
use core_go_nopgp.Auth.Oauth2.{revocation_first, oauth2_auth, oauth2_decide}
use core_go_nopgp.Auth.Oauth2.Laws.{IsOauth2User, oauth2_auth_iff}
use core_go_nopgp.Auth.Legacy.Laws.{IsLegacyUser, legacy_oauth-IsLegacyUser}
use core_go_nopgp.Auth.Middleware.{Request, is_open, middleware}
use core_go_nopgp.Auth.Middleware.Laws.{
  IsAuthenticated, IsAdmitted, middleware-IsAuthenticated, middleware-IsAdmitted,
}
use core_go_nopgp.Errors.{Error}
use core_go_nopgp.Auth.Oauth2.Threads.Laws.{Terminates, oauth2_auth-Terminates}
use core_go_nopgp.Tests.World.{
  alice_token, zeros, toy_env, alice, alice_row, toy_context, toy_internal,
}
use core_go_nopgp.Tests.Tokens.{issued}

abbrev pub by_cookie_user : AuthContext
by_cookie_user = record (scan_user zero_auth alice_row) { auth_method = cookie }

abbrev request : Request
request = record {
  path = codes "/query";
  cookie = some alice;
  authorization = codes "";
  remote_addr = codes "127.0.0.1";
  context = toy_context;
}

middleware-IsAuthenticated_example :
    ((is_open toy_env (codes "/query") ≡ true)
      × (with_user toy_context by_cookie_user ≡ toy_context))
    ⊎ ((is_open toy_env (codes "/query") ≡ false)
        × ((auth : AuthContext) × (with_user toy_context by_cookie_user
              ≡ with_user toy_context auth)
            × IsAuthenticated toy_env [] request auth))
unfolding middleware has_prefix str_eq cookie_auth decrypt_without_expiration auth_for_username
    lookup_user read_tx service_name check_suspended
middleware-IsAuthenticated_example =
    middleware-IsAuthenticated toy_env [] request revocation_first
      (with_user toy_context by_cookie_user) (inl refl)

middleware-IsAdmitted_example :
    (auth : AuthContext) × (some by_cookie_user ≡ some auth)
    × IsAdmitted toy_env [] revocation_first request (with_user toy_context by_cookie_user) auth
unfolding is_open has_prefix str_eq middleware cookie_auth decrypt_without_expiration
    auth_for_username lookup_user read_tx service_name check_suspended
middleware-IsAdmitted_example =
    middleware-IsAdmitted toy_env [] revocation_first request (with_user toy_context by_cookie_user)
      refl (inl refl)

abbrev by_internal_user : AuthContext
by_internal_user = record (scan_user zero_auth alice_row) {
  auth_method = internal;
  internal_auth = toy_internal;
}

internal_auth-IsInternal_example :
    (auth : AuthContext) × (with_user toy_context by_internal_user ≡ with_user toy_context auth)
    × IsInternal toy_env toy_context ((λ ip. true) ∷ []) (codes "payload") (codes "127.0.0.1") auth
unfolding internal_auth decrypt_with_expiration internal_identity str_eq internal_user
    auth_for_username lookup_user read_tx service_name check_suspended
internal_auth-IsInternal_example =
    internal_auth-IsInternal toy_env toy_context ((λ ip. true) ∷ []) (codes "payload")
      (codes "127.0.0.1") (with_user toy_context by_internal_user) (inl refl)

abbrev legacy_token : LegacyToken
legacy_token = record {
  expires = record { sec = pos 2000; nsec = 0 };
  scopes = codes "*";
  auth = scan_user zero_auth alice_row;
}

abbrev by_legacy_user : AuthContext
by_legacy_user = record (scan_user zero_auth alice_row) { auth_method = oauth_legacy }

legacy_oauth-IsLegacyUser_example :
    (token : LegacyToken) × (auth : AuthContext) × (token_from_rows
        (toy_env.oauth_tokens (codes "hash"))
      ≡ ok (some token))
    × (with_user toy_context by_legacy_user ≡ with_user toy_context auth)
    × IsLegacyUser toy_env toy_context token auth
unfolding legacy_oauth runs_fn read_tx legacy_decide check_suspended str_eq
legacy_oauth-IsLegacyUser_example =
    legacy_oauth-IsLegacyUser toy_env toy_context (codes "hash")
      (with_user toy_context by_legacy_user) (inl refl)

oauth2_auth_iff_example :
    Serves
      (oauth2_auth toy_env toy_context revocation_first issued (zeros 64))
      (with_user toy_context by_cookie_user)
    ↔ IsOauth2User toy_env toy_context issued (zeros 64) by_cookie_user
oauth2_auth_iff_example =
    oauth2_auth_iff toy_env toy_context revocation_first issued (zeros 64) by_cookie_user

calls-middleware_example : calls (middleware toy_env [] revocation_first request).events ≤ 1
calls-middleware_example = calls-middleware toy_env [] revocation_first request

-- The user was found, the token was asked for, and neither goroutine has counted yet.
abbrev halfway : State
halfway =
    live called called (record { auth = scan_user zero_auth alice_row; res = 0; temp_err = 0 }) 2

abbrev alice_lookup : Go Error AuthContext
alice_lookup = lookup_user toy_env toy_context alice zero_auth

abbrev alice_revocation : Go Error Bool
alice_revocation = lookup_token_revocation toy_env toy_context alice (zeros 64) (codes "client")

oauth2_auth-Terminates_example :
    Terminates alice_lookup alice_revocation
      (oauth2_decide toy_env toy_context alice_token (zeros 64))
      (λ schedule. oauth2_auth toy_env toy_context schedule issued (zeros 64))
      halfway
unfolding timestamp_time decode_bearer_token decode_raw encode_raw bearer_verify str_eq step
    lookup_user read_tx service_name lookup_token_revocation execute conf_for_context get_origin
    encrypt
oauth2_auth-Terminates_example =
    oauth2_auth-Terminates toy_env toy_context issued (zeros 64) alice_token refl
      (Reach.next revocation (Reach.next lookup Reach.here refl) refl)
