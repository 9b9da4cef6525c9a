-- ===== src/Server/Handler/Keeps.antt =====
-- What WithSchema and WithQueues of server/server.go leave as WithDefaultMiddleware made it.
use mathlib.Core.List.{append-nil}
use core_go_nopgp.Base.{
  Str, codes, List, [], ◌∷◌, ◌++◌, map, ok, ◌≡◌, refl, ap, ◌∙◌, ok-injective, >>=-eq-ok, All, Bool,
}
use core_go_nopgp.Auth.Env.{Env}
use core_go_nopgp.Auth.Oauth2.{Schedule}
use core_go_nopgp.Webhooks.Context.{Schema}
use core_go_nopgp.Server.Assembly.{
  RouterCall, use_middleware, handle_path, Server, Openers, apiconf, complexity_of, schema_paths,
  with_schema, with_queues,
}
use core_go_nopgp.Server.Assembly.Laws.{Call, schema, defaults, middlewares, queues, call, assemble}
use core_go_nopgp.Server.Handler.{Next, uses}

module _ (env : Env) (schedule : Schedule) (server : Server) (real_ip_of : Str → Str)
    (customs : Str → Next → Next) where
  uses-append :
      (before after_it : List RouterCall)
      → uses env schedule server real_ip_of customs (before ++ after_it)
        ≡ uses env schedule server real_ip_of customs before
          ++ uses env schedule server real_ip_of customs after_it
  unfolding uses
  uses-append [] after_it = refl
  uses-append (use_middleware m ∷ before) after_it = ap (λ l. m ∷ l) (uses-append before after_it)
  uses-append (handle_path path ∷ before) after_it = uses-append before after_it

  uses-paths :
      (paths : List Str) → uses env schedule server real_ip_of customs (map handle_path paths) ≡ []
  unfolding uses
  uses-paths [] = refl
  uses-paths (path ∷ paths) = uses-paths paths

  -- What the calls after WithDefaultMiddleware leave as it was.
  pub record Keeps (before after_it : Server) : Type 0 where
    pub conf : after_it.conf ≡ before.conf
    pub service : after_it.service ≡ before.service
    pub email : after_it.email ≡ before.email
    pub redis : after_it.redis ≡ before.redis
    pub middlewares :
        uses env schedule server real_ip_of customs after_it.router
        ≡ uses env schedule server real_ip_of customs before.router

  Keeps-trans : (a b c : Server) → Keeps a b → Keeps b c → Keeps a c
  Keeps-trans a b c h k = record {
    conf = k.conf ∙ h.conf;
    service = k.service ∙ h.service;
    email = k.email ∙ h.email;
    redis = k.redis ∙ h.redis;
    middlewares = k.middlewares ∙ h.middlewares;
  }

  -- A call of WithSchema or WithQueues.
  abbrev pub IsFinish : Call → Type 0
  IsFinish (schema debug given) = Unit
  IsFinish (queues names) = Unit
  IsFinish _ = ⊥

  with_schema-Keeps :
      (openers : Openers) (debug : Bool) (given : Schema) (a b : Server)
      → with_schema openers debug given a ≡ ok b
      → Keeps a b
  unfolding with_schema
  with_schema-Keeps openers debug given a b h =
      let (limit, _, same) =
        >>=-eq-ok (complexity_of openers (a.conf (apiconf a) (codes "max-complexity"))) _ h in
      rw (← ok-injective _ b same) (record {
        conf = refl;
        service = refl;
        email = refl;
        redis = refl;
        middlewares =
            uses-append a.router (map handle_path (schema_paths openers debug))
            ∙ rw (uses-paths (schema_paths openers debug)) (append-nil _);
      })

  call-Keeps :
      (openers : Openers) (c : Call) (a b : Server)
      → IsFinish c
      → call openers env c a ≡ ok b
      → Keeps a b
  unfolding with_queues
  call-Keeps openers (schema debug given) a b f h = with_schema-Keeps openers debug given a b h
  call-Keeps openers (queues names) a b f h =
      rw (← ok-injective _ b h)
        (record { conf = refl; service = refl; email = refl; redis = refl; middlewares = refl })
  call-Keeps openers defaults a b f h = absurd f
  call-Keeps openers (middlewares names) a b f h = absurd f

  pub assemble-Keeps :
      (openers : Openers) (calls : List Call) (a b : Server)
      → All IsFinish calls
      → assemble openers env calls a ≡ ok b
      → Keeps a b
  unfolding assemble
  assemble-Keeps openers [] a b f h =
      rw (← ok-injective a b h)
        (record { conf = refl; service = refl; email = refl; redis = refl; middlewares = refl })
  assemble-Keeps openers (c ∷ cs) a b (f, fs) h =
      let (next, first, rest) = >>=-eq-ok (call openers env c a) _ h in
      Keeps-trans a next b (call-Keeps openers c a next f first)
        (assemble-Keeps openers cs next b fs rest)
