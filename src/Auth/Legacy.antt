-- ===== src/Auth/Legacy.antt =====
-- `LegacyOAuth` of auth/middleware.go.
pub mod Laws
use core_go_nopgp.Base.{
  panicking, Str, codes, str_eq, not, ◌&&◌, Bool, true, false, Option, none, some, List, [], ◌∷◌,
  Time, after, if◌then◌else◌, Go, ok, panic, ◌>>=◌,
}
use core_go_nopgp.Errors.{Error, multiple_tokens}
use core_go_nopgp.Auth.Types.{AuthContext, Context, oauth_legacy, with_user}
use core_go_nopgp.Database.Tx.{read_tx, runs_fn}
use core_go_nopgp.Auth.Env.{Env, UserRow, Rows, unavailable, available}
use core_go_nopgp.Auth.Lookup.{zero_auth, zero_time, scan_user, check_suspended}
use core_go_nopgp.Auth.Http.{
  refused, invalid_legacy, legacy_scopes, auth_error, Handling, deny, pass_on, crash, also, handle,
}

pub record LegacyToken : Type 0 where
  pub expires : Time
  pub scopes : Str
  pub auth : AuthContext

-- The variables of `LegacyOAuth` before the query.
abbrev pub no_token : LegacyToken
no_token = record { expires = zero_time; scopes = codes ""; auth = zero_auth }

abbrev scanned : Time × Str × UserRow → LegacyToken
scanned (expires, scopes, row) = record {
  expires = expires;
  scopes = scopes;
  auth = scan_user zero_auth row;
}

abbrev after_token :
    LegacyToken
    → List (Go Error (Time × Str × UserRow))
    → Option Error
    → Go Error (Option LegacyToken)
after_token token [] rows_err = ok (some token)
after_token token (_ ∷ _) (some e) = panic e
after_token token (_ ∷ _) none = panic multiple_tokens

-- `none` where there is no such token.
abbrev pub token_from_rows : Rows (Time × Str × UserRow) → Go Error (Option LegacyToken)
token_from_rows (unavailable e) = panic e
token_from_rows (available [] (some e)) = panic e
token_from_rows (available [] none) = ok none
token_from_rows (available (first ∷ rest) rows_err) = do
  row ← panicking first
  after_token (scanned row) rest rows_err

abbrev pub or_no_token : Option LegacyToken → LegacyToken
or_no_token none = no_token
or_no_token (some token) = token

abbrev is_missing : Go Error (Option LegacyToken) → Bool
is_missing (ok none) = true
is_missing _ = false

module _ (env : Env) (ctx : Context) where
  -- The checks after the query.
  unfoldable pub legacy_decide : LegacyToken → Handling
  legacy_decide token =
      if after env.now token.expires
      then deny invalid_legacy 403
      else handle (check_suspended token.auth) (λ e. deny (refused e) 403)
          (λ auth.
            if not (str_eq token.scopes (codes "*"))
            then deny legacy_scopes 403
            else pass_on (with_user ctx (record auth { auth_method = oauth_legacy })))

  -- `LegacyOAuth`. Where there is no such token, the response does not end the handler.
  unfoldable pub legacy_oauth : Str → Handling
  legacy_oauth bearer =
      let found = token_from_rows (env.oauth_tokens bearer) in
      let rest =
        handle (panicking (read_tx ctx.has_database env.answers found)) crash
          (λ token. legacy_decide (or_no_token token)) in
      if runs_fn ctx.has_database env.answers && is_missing found
      then also (auth_error invalid_legacy 403) rest
      else rest
