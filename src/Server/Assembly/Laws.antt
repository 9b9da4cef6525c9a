-- ===== src/Server/Assembly/Laws.antt =====
-- What a server has after WithDefaultMiddleware, and which queues it manages.
use core_go_nopgp.Base.{
  map-append, ℤ, Str, codes, Bool, some, List, [], ◌∷◌, map, Go, ok, ◌≡◌, refl, sym, ap, ◌∙◌,
  >>=-eq-ok, ◌>>=◌, ok-injective, must-eq-ok, must, panicking,
}
use core_go_nopgp.Errors.{Error, no_connection_string}
use core_go_nopgp.Auth.Env.{Env, IpNet}
use core_go_nopgp.Auth.Middleware.{internal_nets}
use core_go_nopgp.Email.Queue.{MailQueue, new_queue}
use core_go_nopgp.Webhooks.Context.{Schema}
use core_go_nopgp.Server.Assembly.{
  Started, Server, Openers, apiconf, with_middleware, started_by, with_queues, complexity_of,
  redis_url, duration_of, with_schema, configured, with_default_middleware,
}

-- What WithDefaultMiddleware read, and what it made of it.
pub record IsDefault (openers : Openers) (env : Env) (before after_it : Server) : Type 0 where
  pub pgcs : Str
  pub rcs : Str
  pub duration : ℤ
  pub email : MailQueue
  pub nets : List IpNet
  pub has_pgcs : before.conf before.service (codes "connection-string") ≡ some pgcs
  pub has_email : new_queue openers.parse_address before.conf ≡ ok email
  pub has_nets : internal_nets env before.conf (apiconf before) ≡ ok nets
  pub same :
      after_it
      ≡ with_queues (codes "email" ∷ []) (configured openers before pgcs rcs email nets duration)

-- A call of an application while it puts its server together.
pub data Call : Type 0 where
  schema : Bool → Schema → Call
  defaults : Call
  middlewares queues : List Str → Call

-- The queues that the server manages are those that it started, each as often and in order.
abbrev pub IsManaged : Server → Type 0
IsManaged server = map (λ t. t.queue) server.started ≡ server.queues

module _ (openers : Openers) (env : Env) where
  pub with_default_middleware-IsDefault :
      (before after_it : Server)
      → with_default_middleware openers env before ≡ ok after_it
      → IsDefault openers env before after_it
  unfolding with_default_middleware
  with_default_middleware-IsDefault before after_it h =
      let conf = before.conf in
      let (pgcs, e, h₁) =
        >>=-eq-ok (must no_connection_string (conf before.service (codes "connection-string"))) _
          h in
      let (_, _, h₂) = >>=-eq-ok (panicking (openers.open_database pgcs)) _ h₁ in
      let rcs = redis_url openers (conf (codes "sr.ht") (codes "redis-host")) in
      let (_, _, h₃) = >>=-eq-ok (panicking (openers.parse_redis_url rcs)) _ h₂ in
      let (duration, _, h₄) =
        >>=-eq-ok (duration_of openers (conf (apiconf before) (codes "max-duration"))) _ h₃ in
      let (email, f, h₅) = >>=-eq-ok (new_queue openers.parse_address conf) _ h₄ in
      let (nets, g, h₆) = >>=-eq-ok (internal_nets env conf (apiconf before)) _ h₅ in
      record {
        pgcs = pgcs;
        rcs = rcs;
        duration = duration;
        email = email;
        nets = nets;
        has_pgcs = must-eq-ok no_connection_string _ e;
        has_email = f;
        has_nets = g;
        same = sym (ok-injective _ after_it h₆);
      }

  abbrev pub call : Call → Server → Go Error Server
  call (schema debug given) server = with_schema openers debug given server
  call defaults server = with_default_middleware openers env server
  call (middlewares names) server = ok (with_middleware names server)
  call (queues names) server = ok (with_queues names server)

  unfoldable pub assemble : List Call → Server → Go Error Server
  assemble [] server = ok server
  assemble (c ∷ cs) server = do next ← call c server; assemble cs next

  started_by-queues :
      (server : Server) (names : List Str)
      → map (λ t. t.queue) (map (started_by server) names) ≡ names
  started_by-queues server [] = refl
  started_by-queues server (name ∷ names) = ap (λ l. name ∷ l) (started_by-queues server names)

  with_queues-IsManaged :
      (names : List Str) (server : Server) → IsManaged server → IsManaged (with_queues names server)
  unfolding with_queues
  with_queues-IsManaged names server h =
      map-append (λ (t : Started). t.queue) server.started (map (started_by server) names)
      ∙ rw (h, started_by-queues server names) refl

  call-IsManaged :
      (c : Call) (server t : Server) → IsManaged server → call c server ≡ ok t → IsManaged t
  unfolding with_schema with_middleware
  call-IsManaged (schema debug given) server t h e =
      let (limit, _, same) =
        >>=-eq-ok (complexity_of openers (server.conf (apiconf server) (codes "max-complexity"))) _
          e in
      rw (← ok-injective _ t same) h
  call-IsManaged defaults server t h e =
      let d = with_default_middleware-IsDefault server t e in
      rw d.same (
        with_queues-IsManaged (codes "email" ∷ [])
          (configured openers server d.pgcs d.rcs d.email d.nets d.duration) h)
  call-IsManaged (middlewares names) server t h e = rw (← ok-injective _ t e) h
  call-IsManaged (queues names) server t h e =
      rw (← ok-injective _ t e) (with_queues-IsManaged names server h)

  pub assemble-IsManaged :
      (calls : List Call) (server t : Server)
      → IsManaged server
      → assemble calls server ≡ ok t
      → IsManaged t
  unfolding assemble
  assemble-IsManaged [] server t h e = rw (← ok-injective server t e) h
  assemble-IsManaged (c ∷ cs) server t h e =
      let (next, first, rest) = >>=-eq-ok (call c server) _ e in
      assemble-IsManaged cs next t (call-IsManaged c server next h first) rest
