-- ===== src/Tests/Server.antt =====
-- A server with the default middlewares at concrete inputs.
use core_go_nopgp.Auth.Cookie.{cookie_auth}
use core_go_nopgp.Auth.Lookup.{auth_for_username, check_suspended, lookup_user}
use core_go_nopgp.Base.{
  Option, Go, err, false, has_prefix, pos, Str, codes, str_eq, split, any, true, false, none, some,
  List, [], ◌∷◌, ◌++◌, if◌then◌else◌, ok, ◌≡◌, ◌↔◌, inl, refl,
}
use core_go_nopgp.Config.{service_name, IniFile}
use core_go_nopgp.Crypto.{decrypt_without_expiration}
use core_go_nopgp.Database.Tx.{read_tx}
use core_go_nopgp.Server.Assembly.{
  with_default_middleware, with_schema, handle_path, Server, Openers, new_server, configured,
  with_queues,
}
use core_go_nopgp.Server.Handler.{serve_request, Incoming, arriving}
use core_go_nopgp.Auth.Env.{IpNet}
use core_go_nopgp.Auth.Oauth2.{revocation_first}
use core_go_nopgp.Auth.Middleware.{internal_nets}
use core_go_nopgp.Email.Queue.{MailQueue}
use core_go_nopgp.Server.Assembly.Laws.{schema, defaults, queues, assemble}
use core_go_nopgp.Server.Handler.Laws.{IsProvided, serve_request-IsProvided}
use core_go_nopgp.Server.Run.{run}
use core_go_nopgp.Server.Run.Laws.{after_run, at_rest, run-assembled}
use core_go_nopgp.Auth.Types.{Context}
use core_go_nopgp.Errors.{Error, external}
use core_go_nopgp.Config.Load.{Flag, Loaded, load_config}
use core_go_nopgp.Config.Load.Laws.{IsLoaded, load_config_iff}
use core_go_nopgp.Tests.Tokens.{conf}
use core_go_nopgp.Tests.Webhooks.{toy_schema}
use core_go_nopgp.Tests.World.{alice, toy_env, toy_primitives, toy_keys}
use core_go_nopgp.Tests.Requests.{by_cookie_user}

abbrev openers : Openers
openers = record {
  open_database = λ text. ok tt;
  parse_redis_url = λ text. ok tt;
  parse_duration = λ text. ok (pos 1);
  atoi = λ text. some (pos 1);
  parse_address = λ text. ok (record { name = codes ""; address = text });
}

abbrev service : Str
service = codes "git.sr.ht"

abbrev service_conf : IniFile
service_conf section key =
    if any (str_eq key) (
      codes "connection-string" ∷ codes "smtp-from" ∷ codes "owner-name" ∷ codes "owner-email" ∷ [])
    then some (codes "x")
    else none

abbrev service_queue : MailQueue
service_queue = record {
  smtp_from = record { name = codes ""; address = codes "x" };
  owner_address = record { name = codes "x"; address = codes "x" };
}

abbrev nets : List IpNet
nets = (λ ip. true) ∷ (λ ip. true) ∷ []

abbrev default_server : Server
default_server = with_queues (codes "email" ∷ []) (
    configured openers (new_server service service_conf) (codes "x") (codes "redis://")
      service_queue nets (pos 3000000000))

abbrev server : Server
server = record default_server {
  schema = some toy_schema;
  max_complexity = pos 250;
  router =
      default_server.router
      ++ handle_path (codes "/query")
        ∷ handle_path (codes "/query/metrics")
        ∷ handle_path (codes "/query/api-meta.json")
        ∷ [];
}

abbrev incoming : Incoming
incoming = arriving (codes "/query") (some alice) (codes "") (codes "127.0.0.1")

abbrev seen : Context
seen = record {
  config_context = record { conf = some service_conf; service = some service };
  has_database = true;
  user = some by_cookie_user;
  payload = none;
  max_complexity = some (pos 250);
}

abbrev provided : Incoming
provided = record incoming {
  values = seen;
  email = some service_queue;
  redis = some (codes "redis://");
  address = some (codes "127.0.0.1");
}

serve_request-IsProvided_example :
    (found : List IpNet) × (internal_nets toy_env service_conf (service ++ codes "::api")
      ≡ ok found)
    × IsProvided toy_env revocation_first server
        (λ addr. addr)
        (λ name next. next)
        incoming
        found
        provided
unfolding assemble with_schema with_default_middleware new_server str_eq split serve_request
    has_prefix cookie_auth decrypt_without_expiration auth_for_username lookup_user read_tx
    service_name check_suspended
serve_request-IsProvided_example =
    serve_request-IsProvided toy_env revocation_first server (λ addr. addr) (λ name next. next)
      openers service service_conf (schema false toy_schema ∷ []) incoming provided (tt, tt) refl
      (inl refl)

abbrev webhook_server : Server
webhook_server = with_queues (codes "webhooks" ∷ []) default_server

-- A socket that could be opened.
abbrev opened : Option Error
opened = none

run-assembled_example :
    (((run webhook_server (codes ":5000") none none).result ≡ ok tt)
      ↔ ((opened ≡ none) × (opened ≡ none)))
    × ((run webhook_server (codes ":5000") none none).result ≡ ok tt
        → after_run webhook_server (run webhook_server (codes ":5000") none none).actions
          ≡ some at_rest)
unfolding assemble with_default_middleware new_server str_eq split
run-assembled_example =
    run-assembled openers toy_env (defaults ∷ queues (codes "webhooks" ∷ []) ∷ []) service
      service_conf webhook_server (codes ":5000") none none refl

-- The second file is the first that can be loaded.
abbrev load_second : Str → Go Error IniFile
load_second path =
    if str_eq path (codes "config.ini") then err (external (codes "no file")) else ok conf

abbrev flags : List Flag
flags =
    record { option = b'b'; value = codes ":1" }
    ∷ record { option = b'd'; value = [] }
    ∷ record { option = b'b'; value = codes ":2" }
    ∷ []

abbrev loaded : Loaded
loaded = record {
  conf = conf;
  keys = toy_keys;
  globals = record { debug = true; addr = codes ":2" };
}

load_config_iff_example :
    (load_config toy_primitives (λ args. ok flags) load_second [] false (codes ":0") ≡ ok loaded)
    ↔ IsLoaded toy_primitives (λ args. ok flags) load_second [] false (codes ":0") loaded
load_config_iff_example =
    load_config_iff toy_primitives (λ args. ok flags) load_second [] false (codes ":0") loaded
