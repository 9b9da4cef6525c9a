-- ===== src/Auth/Env.antt =====
-- What package auth asks of the world: the clock, ciphers, encodings, the network, the database and
-- the other services.
use core_go_nopgp.Base.{ℤ, Str, Bool, Option, List, Time, Go, is_ascii, lower, map, if◌then◌else◌}
use core_go_nopgp.Errors.{Error}
use core_go_nopgp.Crypto.{Primitives, Keys}
use core_go_nopgp.Client.{Web}
use core_go_nopgp.Database.Tx.{Answers}
use core_go_nopgp.Auth.Types.{InternalAuth}
use core_go_nopgp.Auth.Bearer.{Bare}

-- The columns of a user that the queries select. The PGP key is selected by meta.sr.ht alone.
pub record UserRow : Type 0 where
  pub id : ℤ
  pub username : Str
  pub created : Time
  pub updated : Time
  pub email : Str
  pub user_type : Str
  pub url : Option Str
  pub location : Option Str
  pub bio : Option Str
  pub suspension_notice : Option Str
  pub pgp_key : Option Str

-- The `me` of meta.sr.ht, as it is decoded. A field that the answer does not have stays "" or nil.
pub record Profile : Type 0 where
  pub id : ℤ
  pub username : Str
  pub email : Str
  pub url : Option Str
  pub location : Option Str
  pub bio : Option Str
  pub user_type : Str
  pub suspension_notice : Str

-- The outcome of a query: it failed, or it has rows, each of which can be scanned or not, and an
-- error that rows.Err gives at their end.
pub data Rows (A : Type 0) : Type 0 where
  unavailable : Error → Rows A
  available : List (Go Error A) → Option Error → Rows A

-- A network, as the addresses that it contains.
abbrev pub IpNet : Type 0
IpNet = Str → Bool

pub record Env : Type 0 where
  pub primitives : Primitives
  pub keys : Keys
  pub bare : Bare
  pub web : Web
  pub now : Time
  pub sha512 : Str → Str
  -- strings.ToLower on text that is not ASCII.
  pub unicode_lower : Str → Str
  -- json.Unmarshal at the types that the package decodes.
  pub unmarshal_cookie : Str → Option Str
  pub unmarshal_internal : Str → Option InternalAuth
  pub unmarshal_profile : Str → Go Error Profile
  pub unmarshal_revocation : Str → Go Error Bool
  -- net.SplitHostPort, net.ParseIP and net.ParseCIDR.
  pub split_host_port : Str → Option Str
  pub parse_ip : Str → Option Str
  pub parse_cidr : Str → Option IpNet
  -- The database: what the transactions are answered, and the queries.
  pub answers : Answers
  pub profile_answers : Answers
  pub users : Bool → Str → Rows UserRow
  pub oauth_clients : Str → Rows UserRow
  pub oauth_tokens : Str → Rows (Time × Str × UserRow)
  -- The INSERT of a profile with the user type in lower case; no row where one was there.
  pub insert_user : Profile → Go Error (Option UserRow)

-- strings.ToLower
unfoldable pub to_lower : Env → Str → Str
unfolding is_ascii lower
to_lower env s = if is_ascii s then map lower s else env.unicode_lower s
