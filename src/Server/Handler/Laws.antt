-- ===== src/Server/Handler/Laws.antt =====
-- What a handler behind the default middlewares finds in its context.
use core_go_nopgp.Base.{
  ℤ, Str, codes, true, false, Option, none, some, List, [], ◌∷◌, ◌++◌, map, Go, ok, err, panic, ◌≡◌,
  ◌⊎◌, inl, inr, refl, sym, ap, subst, ◌∙◌, must-eq-ok, ok-injective, >>=-eq-ok, All,
}
use core_go_nopgp.Config.{IniFile, conf_for_context, service_name, with_config}
use core_go_nopgp.Errors.{Error, invalid_remote_address}
use core_go_nopgp.Auth.Types.{AuthContext, Context}
use core_go_nopgp.Auth.Env.{Env, IpNet}
use core_go_nopgp.Auth.Http.{returned}
use core_go_nopgp.Auth.Http.Laws.{Serves}
use core_go_nopgp.Auth.Oauth2.{Schedule}
use core_go_nopgp.Auth.Middleware.{Request, is_open, middleware, internal_nets}
use core_go_nopgp.Auth.Middleware.Laws.{IsAuthenticated, middleware-IsAuthenticated}
use core_go_nopgp.Email.Queue.{MailQueue}
use core_go_nopgp.Server.Assembly.{
  real_ip, logger, timeout, server_values, Middleware, use_middleware, Server, Openers, new_server,
  with_default_middleware, default_middleware, with_queues,
}
use core_go_nopgp.Server.Assembly.Laws.{with_default_middleware-IsDefault, Call, defaults, assemble}
use core_go_nopgp.Server.Handler.{
  Incoming, request_of, handled, Next, host_part, address_of, with_remote_addr, serve_through, uses,
  serve_request,
}
use core_go_nopgp.Server.Handler.Keeps.{IsFinish, assemble-Keeps}
use core_go_nopgp.Server.Handler.Handles.{Handles, replay-Handles}

module _ (env : Env) (schedule : Schedule) (server : Server) (real_ip_of : Str → Str)
    (customs : Str → Next → Next) where
  -- The address of the context is one that net.ParseIP takes, or the host of one with a port.
  abbrev pub IsAddress : Str → Str → Type 0
  IsAddress given addr =
      ((ip : Str) × (env.parse_ip given ≡ some ip) × (addr ≡ given))
      ⊎ ((env.parse_ip given ≡ none) × (env.split_host_port given ≡ some addr))

  host_part-IsAddress :
      (given addr : Str) (parsed : Option Str)
      → env.parse_ip given ≡ parsed
      → host_part env schedule server real_ip_of customs given parsed ≡ ok addr
      → IsAddress given addr
  host_part-IsAddress given addr (some ip) e h = inl (ip, e, sym (ok-injective given addr h))
  host_part-IsAddress given addr none e h = inr (e, must-eq-ok invalid_remote_address _ h)

  with_address-Handles :
      (r p : Incoming) (given : Go Error Str)
      → Handles
          (with_remote_addr env schedule server real_ip_of customs
            (λ q. record { effects = handled q ∷ []; ending = returned })
            r
            given)
          p
      → (addr : Str) × (given ≡ ok addr)
        × (p ≡ record r {
          values = record r.values { max_complexity = some server.max_complexity };
          address = some addr;
        })
  with_address-Handles r p (ok addr) (inl e) = (addr, refl, sym e)
  with_address-Handles r p (ok addr) (inr h) = absurd h
  with_address-Handles r p (err e) h = absurd h
  with_address-Handles r p (panic e) h = absurd h

  -- The context that package auth is given.
  abbrev pub before_auth : Incoming → Context
  before_auth r = record r.values {
    config_context = with_config r.values.config_context server.conf server.service;
    has_database = true;
  }

  abbrev pub judged : Incoming → Request
  judged r = record (request_of r) { context = before_auth r }

  -- What a handler finds: the values of the server, the address, and, unless the path is open, a
  -- user who is authenticated by the request as it arrived, from the address of its connection.
  pub record IsProvided (r : Incoming) (nets : List IpNet) (p : Incoming) : Type 0 where
    pub conf : conf_for_context p.values.config_context ≡ ok server.conf
    pub service : service_name p.values.config_context ≡ ok server.service
    pub database : p.values.has_database ≡ true
    pub email : (queue : MailQueue) × (p.email ≡ some queue) × (server.email ≡ some queue)
    pub redis : (client : Str) × (p.redis ≡ some client) × (server.redis ≡ some client)
    pub complexity : p.values.max_complexity ≡ some server.max_complexity
    pub address : (addr : Str) × (p.address ≡ some addr) × IsAddress (real_ip_of r.remote_addr) addr
    pub user :
        ((is_open env r.path ≡ true) × (p.values.user ≡ r.values.user))
        ⊎ ((is_open env r.path ≡ false)
            × ((auth : AuthContext) × (p.values.user ≡ some auth)
                × IsAuthenticated env nets (judged r) auth))

  -- The user of a context that package auth served.
  served_user :
      (r : Incoming) (nets : List IpNet) (served : Context)
      → Serves (middleware env nets schedule (judged r)) served
      → (served ≡ record (before_auth r) { user = served.user })
        × (((is_open env r.path ≡ true) × (served.user ≡ r.values.user))
            ⊎ ((is_open env r.path ≡ false)
                × ((auth : AuthContext) × (served.user ≡ some auth)
                    × IsAuthenticated env nets (judged r) auth)))
  served_user r nets served h =
      elim (middleware-IsAuthenticated env nets (judged r) schedule served h) [
        | inl (free, e) ↦ rw e (refl, inl (free, refl))
        | inr (guarded, (auth, e, evidence)) ↦ rw e (refl, inr (guarded, (auth, refl, evidence)))
      ]

  default-IsProvided :
      (openers : Openers) (pgcs rcs : Str) (queue : MailQueue) (nets : List IpNet) (duration : ℤ)
      (r p : Incoming)
      → server.email ≡ some queue
      → server.redis ≡ some rcs
      → Handles
          (serve_through env schedule server real_ip_of customs
            (default_middleware openers pgcs rcs queue nets duration)
            r)
          p
      → IsProvided r nets p
  unfolding serve_through address_of with_config conf_for_context service_name
  default-IsProvided openers pgcs rcs queue nets duration r p e f h =
      let judging = middleware env nets schedule (judged r) in
      let inner = record r { values = before_auth r; email = some queue; redis = some rcs } in
      let after_auth =
        serve_through env schedule server real_ip_of customs
          (real_ip ∷ logger ∷ timeout duration ∷ server_values ∷ []) in
      let (served, called, handles) =
        replay-Handles after_auth inner p judging.events judging.ending h in
      let reached = record inner { values = served; remote_addr = real_ip_of r.remote_addr } in
      let given = address_of env schedule server real_ip_of customs (real_ip_of r.remote_addr) in
      let (addr, a, same) = with_address-Handles reached p given handles in
      let (base, user) = served_user r nets served called in
      rw same (record {
        conf = rw base refl;
        service = rw base refl;
        database = rw base refl;
        email = (queue, refl, e);
        redis = (rcs, refl, f);
        complexity = refl;
        address = (addr, refl, host_part-IsAddress (real_ip_of r.remote_addr) addr _ refl a);
        user = user;
      })

  uses-map :
      (ms : List Middleware)
      → uses env schedule server real_ip_of customs (map use_middleware ms) ≡ ms
  unfolding uses
  uses-map [] = refl
  uses-map (m ∷ ms) = ap (λ l. m ∷ l) (uses-map ms)

  -- A handler of a server that WithDefaultMiddleware made, and any calls of WithSchema and
  -- WithQueues after it, is called only with a context that has the configuration, the service, the
  -- database, the email queue, the Redis client, the complexity limit and the remote address, and,
  -- unless the path is open, a user for whom the request as it arrived, from the address of its
  -- connection, has evidence.
  pub serve_request-IsProvided :
      (openers : Openers) (service : Str) (conf : IniFile) (calls : List Call) (r p : Incoming)
      → All (IsFinish env schedule server real_ip_of customs) calls
      → assemble openers env (defaults ∷ calls) (new_server service conf) ≡ ok server
      → Handles (serve_request env schedule server real_ip_of customs r) p
      → (nets : List IpNet) × (internal_nets env conf (service ++ codes "::api") ≡ ok nets)
        × IsProvided r nets p
  unfolding serve_request new_server with_queues assemble
  serve_request-IsProvided openers service conf calls r p finish h handles =
      let (made, first, rest) =
        >>=-eq-ok (with_default_middleware openers env (new_server service conf)) _ h in
      let d = with_default_middleware-IsDefault openers env (new_server service conf) made first in
      let kept =
        assemble-Keeps env schedule server real_ip_of customs openers calls made server finish
          rest in
      (
        d.nets,
        d.has_nets,
        default-IsProvided openers d.pgcs d.rcs d.email d.nets d.duration r p
            (kept.email ∙ ap (λ (s : Server). s.email) d.same)
            (kept.redis ∙ ap (λ (s : Server). s.redis) d.same)
            (subst (λ ms. Handles (serve_through env schedule server real_ip_of customs ms r) p)
              (kept.middlewares
                ∙ ap (λ (s : Server). uses env schedule server real_ip_of customs s.router) d.same
                ∙ uses-map (default_middleware openers d.pgcs d.rcs d.email d.nets d.duration))
              handles),
      )
