-- ===== src/Auth/Middleware/Once.antt =====
-- How often the middleware hands a request on.
use core_go_nopgp.Base.{◌≤◌, Str, split_two, Option, none, some, List, arith}
use core_go_nopgp.Codec.Hex
use core_go_nopgp.Auth.Types.{BearerToken, Context, InternalAuth}
use core_go_nopgp.Auth.Env.{Env, IpNet}
use core_go_nopgp.Auth.Http.{Handling}
use core_go_nopgp.Auth.Http.Laws.{calls}
use core_go_nopgp.Auth.Cookie.{cookie_auth}
use core_go_nopgp.Auth.Internal.{internal_auth, internal_identity, internal_payload}
use core_go_nopgp.Auth.Oauth2.{Shared, Schedule, oauth2_auth, oauth2_token, oauth2_decide}
use core_go_nopgp.Auth.Legacy.{LegacyToken, legacy_oauth, legacy_decide}
use core_go_nopgp.Auth.Middleware.{Request, bearer_method, header_method, cookie_method, middleware}

abbrev Once : Handling → Type 0
Once h = calls h.events ≤ 1

module _ (env : Env) (ctx : Context) where
  cookie_auth-Once : (value : Str) → Once (cookie_auth env ctx value)
  unfolding cookie_auth
  cookie_auth-Once value = ground arith

  internal_identity-Once : (given : InternalAuth) → Once (internal_identity env ctx given)
  unfolding internal_identity
  internal_identity-Once given = ground arith

  internal_payload-Once : (o : Option Str) → Once (internal_payload env ctx o)
  internal_payload-Once none = omega arith
  internal_payload-Once (some payload) = grind (arith, internal_identity-Once)

  internal_auth-Once :
      (nets : List IpNet) (payload remote_addr : Str)
      → Once (internal_auth env ctx nets payload remote_addr)
  unfolding internal_auth
  internal_auth-Once nets payload remote_addr = grind (arith, internal_payload-Once)

  oauth2_decide-Once :
      (bt : BearerToken) (hash : Str) (s : Shared) → Once (oauth2_decide env ctx bt hash s)
  unfolding oauth2_decide
  oauth2_decide-Once bt hash s = ground arith

  oauth2_token-Once :
      (schedule : Schedule) (hash : Str) (o : Option BearerToken)
      → Once (oauth2_token env ctx schedule hash o)
  oauth2_token-Once schedule hash none = omega arith
  oauth2_token-Once schedule hash (some bt) = grind (arith, oauth2_decide-Once)

  oauth2_auth-Once :
      (schedule : Schedule) (token hash : Str) → Once (oauth2_auth env ctx schedule token hash)
  unfolding oauth2_auth
  oauth2_auth-Once schedule token hash = oauth2_token-Once schedule hash _

  legacy_decide-Once : (token : LegacyToken) → Once (legacy_decide env ctx token)
  unfolding legacy_decide
  legacy_decide-Once token = ground arith

  legacy_oauth-Once : (bearer : Str) → Once (legacy_oauth env ctx bearer)
  unfolding legacy_oauth
  legacy_oauth-Once bearer = grind (arith, legacy_decide-Once)

module _ (env : Env) (nets : List IpNet) (schedule : Schedule) (r : Request) where
  bearer_method-Once : (token : Str) → Once (bearer_method env nets schedule r token)
  unfolding bearer_method
  bearer_method-Once token = ground (
    arith,
    oauth2_auth-Once env r.context schedule token (env.sha512 token),
    legacy_oauth-Once env r.context (Hex.encode (env.sha512 token)),
  )

  header_method-Once : (z : Option (Str × Str)) → Once (header_method env nets schedule r z)
  header_method-Once none = omega arith
  header_method-Once (some (scheme, credentials)) = ground (
    arith,
    bearer_method-Once credentials,
    internal_auth-Once env r.context nets credentials r.remote_addr,
  )

  cookie_method-Once : (o : Option Str) → Once (cookie_method env nets schedule r o)
  cookie_method-Once (some value) = cookie_auth-Once env r.context value
  cookie_method-Once none = ground (arith, header_method-Once (split_two b' ' r.authorization))

  -- The middleware calls the next handler at most once, on every path, also where it has written
  -- an error before.
  pub calls-middleware : calls (middleware env nets schedule r).events ≤ 1
  unfolding middleware
  calls-middleware = ground (arith, cookie_method-Once r.cookie)
