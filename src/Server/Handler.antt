-- ===== src/Server/Handler.antt =====
-- server/server.go: what a request goes through, by the middlewares that the router was given, in
-- their order. The real-ip middleware of chi, as what it makes of the remote address, and the
-- application's middlewares are parameters; the log, the metrics and the deadline do not change
-- what a handler finds in its context.
pub mod Handles
pub mod Keeps
pub mod Laws
use core_go_nopgp.Base.{
  ℕ, Str, Bool, Option, none, some, List, [], ◌∷◌, ◌++◌, Go, ok, err, panic, must, ◌>>=◌,
}
use core_go_nopgp.Config.{with_config}
use core_go_nopgp.Errors.{
  Error, invalid_remote_address, no_remote_address, no_email_worker, invalid_redis_context,
}
use core_go_nopgp.Auth.Types.{Context}
use core_go_nopgp.Auth.Env.{Env}
use core_go_nopgp.Auth.Http.{Reason, Event, auth_error, serve, Ending, returned, panicked, Handling}
use core_go_nopgp.Auth.Oauth2.{Schedule}
use core_go_nopgp.Auth.Middleware.{Request, middleware}
use core_go_nopgp.Email.Queue.{MailQueue}
use core_go_nopgp.Server.Assembly.{
  Middleware, instrument, config_values, real_ip, logger, server_values, email_queue, database_pool,
  redis_client, authenticate, timeout, custom, RouterCall, use_middleware, handle_path, Server,
}

-- A request with its context: the values of package auth, and those of the other packages.
pub record Incoming : Type 0 where
  pub path : Str
  pub cookie : Option Str
  pub authorization : Str
  pub remote_addr : Str
  pub values : Context
  pub email : Option MailQueue
  pub redis : Option Str
  -- The value of remoteAddrCtxKey.
  pub address : Option Str

-- A request as it arrives, without values.
abbrev pub arriving : Str → Option Str → Str → Str → Incoming
arriving path cookie authorization remote_addr = record {
  path = path;
  cookie = cookie;
  authorization = authorization;
  remote_addr = remote_addr;
  values = record {
    config_context = record { conf = none; service = none };
    has_database = Bool.false;
    user = none;
    payload = none;
    max_complexity = none;
  };
  email = none;
  redis = none;
  address = none;
}

-- What the middleware of package auth reads of it.
abbrev pub request_of : Incoming → Request
request_of r = record {
  path = r.path;
  cookie = r.cookie;
  authorization = r.authorization;
  remote_addr = r.remote_addr;
  context = r.values;
}

-- The error responses, and the requests that reach a handler of the router.
pub data Effect : Type 0 where
  responded : Reason → ℕ → Effect
  handled : Incoming → Effect

pub record Served : Type 0 where
  pub effects : List Effect
  pub ending : Ending

-- What comes after a call of the next handler, unless it panicked.
abbrev and_after : Served → Served → Served
and_after first rest = elim first.ending [
  | returned ↦ record { effects = first.effects ++ rest.effects; ending = rest.ending }
  | panicked e ↦ first
]

abbrev pub Next : Type 0
Next = Incoming → Served

-- The events of the middleware of package auth, with what the next handler does.
unfoldable pub replay : Next → Incoming → List Event → Ending → Served
replay next r [] ending = record { effects = []; ending = ending }
replay next r (auth_error reason code ∷ events) ending =
    let rest = replay next r events ending in
    record { effects = responded reason code ∷ rest.effects; ending = rest.ending }
replay next r (serve ctx ∷ events) ending =
    let rest = replay next r events ending in and_after (next (record r { values = ctx })) rest

module _ (env : Env) (schedule : Schedule) (server : Server) (real_ip_of : Str → Str)
    (customs : Str → Next → Next) where
  -- The middleware that WithDefaultMiddleware ends with: the address as it is, or its host.
  abbrev host_part : Str → Option Str → Go Error Str
  host_part addr (some ip) = ok addr
  host_part addr none = must invalid_remote_address (env.split_host_port addr)

  unfoldable pub address_of : Str → Go Error Str
  address_of addr = host_part addr (env.parse_ip addr)

  abbrev with_remote_addr : Next → Incoming → Go Error Str → Served
  with_remote_addr next r (ok addr) = next (record r {
    values = record r.values { max_complexity = some server.max_complexity };
    address = some addr;
  })
  with_remote_addr next r (err e) = record { effects = []; ending = panicked e }
  with_remote_addr next r (panic e) = record { effects = []; ending = panicked e }

  -- The middlewares of packages config, email, database and redis.
  abbrev config_middleware : Next → Next
  config_middleware next r = next (record r {
    values = record r.values {
      config_context = with_config r.values.config_context server.conf server.service;
    };
  })

  abbrev email_middleware : MailQueue → Next → Next
  email_middleware queue next r = next (record r { email = some queue })

  abbrev database_middleware : Next → Next
  database_middleware next r =
      next (record r { values = record r.values { has_database = Bool.true } })

  abbrev client_middleware : Str → Next → Next
  client_middleware client next r = next (record r { redis = some client })

  abbrev pub wrap : Middleware → Next → Next
  wrap instrument next r = next r
  wrap config_values next r = config_middleware next r
  wrap (email_queue queue) next r = email_middleware queue next r
  wrap (database_pool pool) next r = database_middleware next r
  wrap (redis_client client) next r = client_middleware client next r
  wrap (authenticate nets) next r =
      let h = middleware env nets schedule (request_of r) in replay next r h.events h.ending
  wrap real_ip next r = next (record r { remote_addr = real_ip_of r.remote_addr })
  wrap logger next r = next r
  wrap (timeout duration) next r = next r
  wrap server_values next r = with_remote_addr next r (address_of r.remote_addr)
  wrap (custom name) next r = customs name next r

  -- The router's handler: the middlewares in the order of their Use.
  unfoldable pub serve_through : List Middleware → Next
  unfolding with_config middleware replay address_of
  serve_through [] r = record { effects = handled r ∷ []; ending = returned }
  serve_through (m ∷ ms) r = wrap m (serve_through ms) r

  unfoldable pub uses : List RouterCall → List Middleware
  uses [] = []
  uses (use_middleware m ∷ calls) = m ∷ uses calls
  uses (handle_path path ∷ calls) = uses calls

  -- A request to the assembled server.
  unfoldable pub serve_request : Next
  unfolding serve_through uses
  serve_request r = serve_through (uses server.router) r

-- `RemoteAddr`
abbrev remote_addr_for_context : Incoming → Go Error Str
remote_addr_for_context r = must no_remote_address r.address
