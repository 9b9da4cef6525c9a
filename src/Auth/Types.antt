-- ===== src/Auth/Types.antt =====
-- The types of auth/middleware.go and auth/bearer.go, and the values that a context.Context
-- carries for this program.
use core_go_nopgp.Base.{ℕ, ℤ, Str, Map, Time, Bool, Option, codes, Go, must}
use core_go_nopgp.Config.{ConfigContext}
use core_go_nopgp.Errors.{Error, invalid_auth_context}

-- The AUTH_ constants; `other` is any other string, the "" of a zero AuthContext among them.
pub data AuthMethod : Type 0 where
  oauth_legacy oauth2 cookie internal anon_internal webhook : AuthMethod
  other : Str → AuthMethod

abbrev pub user_suspended : Str
user_suspended = codes "suspended"

abbrev pub ro : Str
ro = codes "RO"

abbrev pub rw_mode : Str
rw_mode = codes "RW"

-- `ReadOnly` is exported, the others are private to the package.
pub record Grants : Type 0 where
  pub read_only : Bool
  pub all : Bool
  pub grants : Map Str
  pub encoded : Str

pub record BearerToken : Type 0 where
  pub version : ℕ
  -- A Timestamp: seconds, an int64.
  pub expires : ℤ
  pub grants : Str
  pub client_id : Str
  pub username : Str

pub record InternalAuth : Type 0 where
  pub name : Str
  pub client_id : Str
  pub node_id : Str
  pub oauth_client_uuid : Str

pub record AuthContext : Type 0 where
  pub auth_method : AuthMethod
  pub user_id : ℤ
  pub created : Time
  pub updated : Time
  pub username : Str
  pub email : Str
  pub user_type : Str
  pub url : Option Str
  pub location : Option Str
  pub bio : Option Str
  pub suspension_notice : Option Str
  pub pgp_key : Option Str
  pub internal_auth : InternalAuth
  pub bearer_token : Option BearerToken
  pub grants : Grants
  pub token_hash : Str

-- The values that the program keeps in a context.Context: those of package config, the
-- authenticated user, the database, the payload of a webhook and the server's complexity limit.
pub record Context : Type 0 where
  pub config_context : ConfigContext
  pub open config_context use *
  pub has_database : Bool
  pub user : Option AuthContext
  pub payload : Option Str
  pub max_complexity : Option ℤ

-- `ForContext`
unfoldable pub user_for_context : Context → Go Error AuthContext
user_for_context ctx = must invalid_auth_context ctx.user

-- `context.WithValue(ctx, userCtxKey, auth)`
abbrev pub with_user : Context → AuthContext → Context
with_user ctx auth = record ctx { user = Option.some auth }
