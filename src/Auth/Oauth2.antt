-- ===== src/Auth/Oauth2.antt =====
-- `OAuth2` of auth/middleware.go, with its two goroutines.
pub mod Laws
pub mod Threads
use core_go_nopgp.Base.{
  ℕ, ◌+◌, ◌==◌, Str, not, Bool, true, false, Option, none, some, if◌then◌else◌, Go, ok, err, panic,
  ◌>>=◌,
}
use core_go_nopgp.Errors.{Error}
use core_go_nopgp.Auth.Types.{AuthContext, BearerToken, Context, oauth2, with_user}
use core_go_nopgp.Auth.Bearer.{decode_bearer_token}
use core_go_nopgp.Auth.Grants.{decode_grants}
use core_go_nopgp.Auth.Env.{Env}
use core_go_nopgp.Auth.Lookup.{zero_auth, lookup_user, lookup_token_revocation, check_suspended}
use core_go_nopgp.Auth.Http.{
  refused, invalid_bearer, temporary_error, Handling, deny, pass_on, crash, handle,
}

-- The variables that the two goroutines of `OAuth2` share; the additions are atomic.
pub record Shared : Type 0 where
  pub auth : AuthContext
  pub res : ℕ
  pub temp_err : ℕ

-- The goroutine that looks the user up, to its end. A panic ends the program.
abbrev pub lookup_done : Go Error AuthContext → Shared → Go Error Shared
lookup_done (ok auth) s = ok (record s { auth = auth; res = s.res + 1 })
lookup_done (err e) s = ok (record s { temp_err = s.temp_err + 1 })
lookup_done (panic e) s = panic e

-- The goroutine that asks whether the token has been revoked.
abbrev pub revocation_done : Go Error Bool → Shared → Go Error Shared
revocation_done (ok true) s = ok s
revocation_done (ok false) s = ok (record s { res = s.res + 1 })
revocation_done (err e) s = ok (record s { temp_err = s.temp_err + 1 })
revocation_done (panic e) s = panic e

-- Which of them comes first.
pub data Schedule : Type 0 where
  lookup_first revocation_first : Schedule

abbrev pub run_both : Schedule → Go Error AuthContext → Go Error Bool → Shared → Go Error Shared
run_both lookup_first user revoked s = lookup_done user s >>= revocation_done revoked
run_both revocation_first user revoked s = revocation_done revoked s >>= lookup_done user

module _ (env : Env) (ctx : Context) where
  -- After wg.Wait().
  unfoldable pub oauth2_decide : BearerToken → Str → Shared → Handling
  oauth2_decide bt hash s =
      if not (s.res == 2)
      then (if not (s.temp_err == 0) then deny temporary_error 500 else deny invalid_bearer 403)
      else handle (check_suspended s.auth) (λ e. deny (refused e) 403)
          (λ auth. handle (decode_grants ctx bt.grants) crash (λ grants. pass_on (
            with_user ctx (record auth {
              auth_method = oauth2;
              bearer_token = some bt;
              token_hash = hash;
              grants = grants;
            }))))

  abbrev pub oauth2_token : Schedule → Str → Option BearerToken → Handling
  oauth2_token schedule hash none = deny invalid_bearer 403
  oauth2_token schedule hash (some bt) =
      handle
        (run_both schedule (lookup_user env ctx bt.username zero_auth)
          (lookup_token_revocation env ctx bt.username hash bt.client_id)
          (record { auth = zero_auth; res = 0; temp_err = 0 }))
        crash (oauth2_decide bt hash)

  -- `OAuth2`
  unfoldable pub oauth2_auth : Schedule → Str → Str → Handling
  oauth2_auth schedule token hash =
      oauth2_token schedule hash
        (decode_bearer_token env.primitives env.bare env.keys env.now token)
