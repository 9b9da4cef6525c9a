-- ===== src/Server/Assembly.antt =====
-- server/server.go: putting a server together, by the calls of its router and the queues that it
-- manages. PostgreSQL, Redis and the reading of numbers and durations are parameters, and so are
-- the queues that an application adds, by their names.
pub mod Laws
use core_go_nopgp.Base.{
  ℤ, pos, Str, codes, Bool, Option, none, some, List, [], ◌∷◌, ◌++◌, map, if◌then◌else◌, Go, ok,
  err, panic, ◌>>=◌, ◌>>◌, must, panicking,
}
use core_go_nopgp.Config.{IniFile}
use core_go_nopgp.Errors.{Error, no_connection_string, max_complexity_invalid}
use core_go_nopgp.Auth.Env.{Env, IpNet}
use core_go_nopgp.Auth.Middleware.{internal_nets}
use core_go_nopgp.Email.Header.{Address}
use core_go_nopgp.Email.Queue.{MailQueue, new_queue}
use core_go_nopgp.Webhooks.Context.{Schema}

-- A middleware: one of the library's, with what it holds on to, or one of the application's.
pub data Middleware : Type 0 where
  instrument config_values real_ip logger server_values : Middleware
  email_queue : MailQueue → Middleware
  database_pool : Str → Middleware
  redis_client : Str → Middleware
  authenticate : List IpNet → Middleware
  timeout : ℤ → Middleware
  custom : Str → Middleware

-- A call of the chi router.
pub data RouterCall : Type 0 where
  use_middleware : Middleware → RouterCall
  handle_path : Str → RouterCall

-- A queue that was started, with what its context holds; a nil pointer reads as `none`.
pub record Started : Type 0 where
  pub queue : Str
  pub conf : IniFile
  pub service : Str
  pub database : Option Str
  pub redis : Option Str
  pub email : Option MailQueue

-- `Server`. The pool and the Redis client are seen by the text that they connect with.
pub record Server : Type 0 where
  pub schema : Option Schema
  pub conf : IniFile
  pub database : Option Str
  pub redis : Option Str
  pub router : List RouterCall
  pub service : Str
  pub queues : List Str
  pub email : Option MailQueue
  pub max_complexity : ℤ
  -- The calls of Start, which are not a field in the source.
  pub started : List Started

-- sql.Open, redis.ParseURL, time.ParseDuration, strconv.Atoi and mail.ParseAddress.
pub record Openers : Type 0 where
  pub open_database : Str → Go Error (Unit {0})
  pub parse_redis_url : Str → Go Error (Unit {0})
  pub parse_duration : Str → Go Error ℤ
  pub atoi : Str → Option ℤ
  pub parse_address : Str → Go Error Address

-- `NewServer`
unfoldable pub new_server : Str → IniFile → Server
new_server service conf = record {
  schema = none;
  conf = conf;
  database = none;
  redis = none;
  router = [];
  service = service;
  queues = [];
  email = none;
  max_complexity = pos 0;
  started = [];
}

abbrev pub apiconf : Server → Str
apiconf server = server.service ++ codes "::api"

-- `WithMiddleware`
unfoldable pub with_middleware : List Str → Server → Server
with_middleware names server = record server {
  router = server.router ++ map (λ name. use_middleware (custom name)) names;
}

abbrev started_by : Server → Str → Started
started_by server queue = record {
  queue = queue;
  conf = server.conf;
  service = server.service;
  database = server.database;
  redis = server.redis;
  email = server.email;
}

-- `WithQueues`
unfoldable pub with_queues : List Str → Server → Server
with_queues queues server = record server {
  queues = server.queues ++ queues;
  started = server.started ++ map (started_by server) queues;
}

module _ (openers : Openers) where
  abbrev pub complexity_of : Option Str → Go Error ℤ
  complexity_of none = ok (pos 250)
  complexity_of (some limit) = must max_complexity_invalid (openers.atoi limit)

  abbrev pub schema_paths : Bool → List Str
  schema_paths debug =
      (if debug then codes "/" ∷ [] else [])
      ++ (codes "/query" ∷ codes "/query/metrics" ∷ codes "/query/api-meta.json" ∷ [])

  -- `WithSchema`; `debug` is config.Debug.
  unfoldable pub with_schema : Bool → Schema → Server → Go Error Server
  with_schema debug schema server = do
    limit ← complexity_of (server.conf (apiconf server) (codes "max-complexity"))
    ok (record server {
      schema = some schema;
      max_complexity = limit;
      router = server.router ++ map handle_path (schema_paths debug);
    })

  abbrev redis_url : Option Str → Str
  redis_url none = codes "redis://"
  redis_url (some url) = url

  -- In nanoseconds; 3 * time.Second unless it is configured.
  abbrev duration_of : Option Str → Go Error ℤ
  duration_of none = ok (pos 3000000000)
  duration_of (some text) = panicking (openers.parse_duration text)

  abbrev pub default_middleware : Str → Str → MailQueue → List IpNet → ℤ → List Middleware
  default_middleware pgcs rcs email nets duration =
      instrument
      ∷ config_values
      ∷ email_queue email
      ∷ database_pool pgcs
      ∷ redis_client rcs
      ∷ authenticate nets
      ∷ real_ip
      ∷ logger
      ∷ timeout duration
      ∷ server_values
      ∷ []

  abbrev pub configured : Server → Str → Str → MailQueue → List IpNet → ℤ → Server
  configured server pgcs rcs email nets duration = record server {
    database = some pgcs;
    redis = some rcs;
    email = some email;
    router = server.router ++ map use_middleware (default_middleware pgcs rcs email nets duration);
  }

  -- `WithDefaultMiddleware`
  unfoldable pub with_default_middleware : Env → Server → Go Error Server
  unfolding new_queue internal_nets with_queues
  with_default_middleware env server = do
    pgcs ← must no_connection_string (server.conf server.service (codes "connection-string"))
    panicking (openers.open_database pgcs)
    let rcs = redis_url (server.conf (codes "sr.ht") (codes "redis-host"))
    panicking (openers.parse_redis_url rcs)
    duration ← duration_of (server.conf (apiconf server) (codes "max-duration"))
    email ← new_queue openers.parse_address server.conf
    nets ← internal_nets env server.conf (apiconf server)
    ok (with_queues (codes "email" ∷ []) (configured server pgcs rcs email nets duration))
