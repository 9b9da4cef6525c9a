-- ===== src/Auth/Middleware.antt =====
-- `Middleware` of auth/middleware.go: how a request is authenticated.
pub mod Laws
pub mod Once
use core_go_nopgp.Base.{
  ℕ, Str, codes, str_eq, has_prefix, split, split_two, leb, ◌==◌, length, all, not, ◌||◌, ◌&&◌,
  Bool, Option, none, some, List, [], ◌∷◌, if◌then◌else◌, Go, ok, ◌>>=◌, must,
}
use core_go_nopgp.Config.{IniFile}
use core_go_nopgp.Codec.Hex
use core_go_nopgp.Errors.{Error, cidr_invalid}
use core_go_nopgp.Auth.Types.{Context}
use core_go_nopgp.Auth.Env.{Env, IpNet, to_lower}
use core_go_nopgp.Auth.Cookie.{cookie_auth}
use core_go_nopgp.Auth.Internal.{internal_auth}
use core_go_nopgp.Auth.Oauth2.{Schedule, oauth2_auth}
use core_go_nopgp.Auth.Legacy.{legacy_oauth}
use core_go_nopgp.Auth.Http.{
  header_required, invalid_header, invalid_bearer_text, Handling, deny, pass_on,
}

abbrev is_digit : ℕ → Bool
is_digit c = leb b'0' c && leb c b'9'

abbrev is_lower_hex : ℕ → Bool
is_lower_hex c = is_digit c || leb b'a' c && leb c b'f'

abbrev is_token_byte : ℕ → Bool
is_token_byte c =
    is_digit c
    || (leb b'a' c && leb c b'z')
    || (leb b'A' c && leb c b'Z')
    || c == b'_'
    || c == b'+'
    || c == b'/'

-- ^[0-9a-f]{32}$
unfoldable pub oauth_bearer_regex : Str → Bool
oauth_bearer_regex token = (length token == 32) && all is_lower_hex token

-- ^[0-9a-zA-Z_+/]{33,}$
unfoldable pub oauth2_bearer_regex : Str → Bool
oauth2_bearer_regex token = leb 33 (length token) && all is_token_byte token

-- The parts of an *http.Request that the middleware reads.
pub record Request : Type 0 where
  pub path : Str
  -- The cookie sr.ht.unified-login.v1.
  pub cookie : Option Str
  pub authorization : Str
  pub remote_addr : Str
  pub context : Context

module _ (env : Env) where
  unfoldable pub parse_nets : List Str → Go Error (List IpNet)
  parse_nets [] = ok []
  parse_nets (cidr ∷ rest) = do
    net ← must cidr_invalid (env.parse_cidr cidr)
    nets ← parse_nets rest
    ok (net ∷ nets)

  abbrev or_default : Option Str → Str
  or_default none = codes "127.0.0.1/24,::1/64"
  or_default (some src) = src

  -- The networks that internal requests may come from.
  unfoldable pub internal_nets : IniFile → Str → Go Error (List IpNet)
  unfolding parse_nets
  internal_nets conf apiconf =
      parse_nets (split b',' (or_default (conf apiconf (codes "internal-ipnet"))))

  -- The paths that need no authentication.
  unfoldable pub is_open : Str → Bool
  is_open path =
      not (has_prefix (codes "/query") path)
      || str_eq path (codes "/query/metrics")
      || str_eq path (codes "/query/api-meta.json")
      || has_prefix (codes "/query/external/") path

  module _ (nets : List IpNet) (schedule : Schedule) (r : Request) where
    unfoldable pub bearer_method : Str → Handling
    unfolding oauth2_bearer_regex oauth_bearer_regex
    bearer_method token =
        if oauth2_bearer_regex token
        then oauth2_auth env r.context schedule token (env.sha512 token)
        else if oauth_bearer_regex token
        then legacy_oauth env r.context (Hex.encode (env.sha512 token))
        else deny invalid_bearer_text 400

    abbrev header_method : Option (Str × Str) → Handling
    header_method none = deny invalid_header 400
    header_method (some (scheme, credentials)) =
        if str_eq (to_lower env scheme) (codes "bearer")
        then bearer_method credentials
        else if str_eq (to_lower env scheme) (codes "internal")
        then internal_auth env r.context nets credentials r.remote_addr
        else deny invalid_header 400

    abbrev cookie_method : Option Str → Handling
    cookie_method (some value) = cookie_auth env r.context value
    cookie_method none =
        if str_eq r.authorization (codes "")
        then deny header_required 401
        else header_method (split_two b' ' r.authorization)

    -- The handler that `Middleware` wraps round the next one.
    unfoldable pub middleware : Handling
    unfolding is_open bearer_method
    middleware = if is_open r.path then pass_on r.context else cookie_method r.cookie
