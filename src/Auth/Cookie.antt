-- ===== src/Auth/Cookie.antt =====
-- `cookieAuth` of auth/middleware.go.
pub mod Laws
use core_go_nopgp.Base.{Str, Option, none, some, must}
use core_go_nopgp.Crypto.{decrypt_without_expiration}
use core_go_nopgp.Errors.{json_programmer_error}
use core_go_nopgp.Auth.Types.{Context, cookie, with_user}
use core_go_nopgp.Auth.Env.{Env}
use core_go_nopgp.Auth.Lookup.{auth_for_username}
use core_go_nopgp.Auth.Http.{refused, invalid_cookie, Handling, deny, pass_on, crash, handle}

module _ (env : Env) (ctx : Context) where
  -- `cookieAuth`, after the cookie has been decrypted and decoded.
  abbrev cookie_user : Str → Handling
  cookie_user name =
      handle (auth_for_username env ctx name) (λ e. deny (refused e) 403)
        (λ auth. pass_on (with_user ctx (record auth { auth_method = cookie })))

  abbrev pub cookie_payload : Option Str → Handling
  cookie_payload none = deny invalid_cookie 403
  cookie_payload (some payload) =
      handle (must json_programmer_error (env.unmarshal_cookie payload)) crash cookie_user

  -- `cookieAuth`
  unfoldable pub cookie_auth : Str → Handling
  cookie_auth value = cookie_payload (decrypt_without_expiration env.primitives env.keys value)
