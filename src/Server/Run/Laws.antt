-- ===== src/Server/Run/Laws.antt =====
-- When `Run` returns no request is accepted any more and no queue is left at work.
use core_go_nopgp.Base.{
  Str, str_eq, str_eq_refl, Bool, true, false, Option, none, some, List, [], ◌∷◌, map,
  if◌then◌else◌, ok, ◌≡◌, ◌↔◌, refl,
}
use core_go_nopgp.Config.{IniFile}
use core_go_nopgp.Auth.Env.{Env}
use core_go_nopgp.Server.Assembly.{Server, Openers, new_server}
use core_go_nopgp.Server.Assembly.Laws.{Call, assemble, assemble-IsManaged}
use core_go_nopgp.Errors.{Error}
use core_go_nopgp.Server.Run.{
  RunAction, listen, serve, notify_interrupt, wait_for_interrupt, shut_down, join, close, run,
}

-- The sockets that are open, whether the server accepts requests, which can enqueue tasks, whether
-- the signal is waited for and has come, the queues that are at work, and whether the server is
-- closed.
pub record Activity : Type 0 where
  pub listening : Bool
  pub accepting : Bool
  pub notified : Bool
  pub interrupted : Bool
  pub working : List Str
  pub closed : Bool

abbrev remove_one : Str → List Str → List Str
remove_one name [] = []
remove_one name (w ∷ working) =
    let rest = remove_one name working in if str_eq name w then working else w ∷ rest

abbrev remove_each : List Str → List Str → List Str
remove_each [] working = working
remove_each (name ∷ names) working = remove_each names (remove_one name working)

abbrev closed_if_idle : Activity → Option Activity
closed_if_idle a = elim a.working [ [] ↦ some (record a { closed = true }) | w ∷ ws ↦ none ]

-- An action where it is allowed: the server serves a socket that it listens on, waits for a signal
-- that it asked for, and shuts down only after the signal; a queue is joined, and the server closed,
-- only when no request is accepted, and the server is closed only when no queue is at work.
abbrev act : RunAction → Activity → Option Activity
act (listen addr) a = some (record a { listening = true })
act serve a = if a.listening then some (record a { accepting = true }) else none
act notify_interrupt a = some (record a { notified = true })
act wait_for_interrupt a = if a.notified then some (record a { interrupted = true }) else none
act (shut_down seconds) a =
    if a.interrupted then some (record a { accepting = false; listening = false }) else none
act (join names) a =
    if a.accepting then none else some (record a { working = remove_each names a.working })
act close a = if a.accepting then none else closed_if_idle a
act _ a = some a

abbrev act_all : List RunAction → Option Activity → Option Activity
act_all [] o = o
act_all (action ∷ actions) none = none
act_all (action ∷ actions) (some a) = act_all actions (act action a)

abbrev pub queues_at_work : Server → Activity
queues_at_work server = record {
  listening = false;
  accepting = false;
  notified = false;
  interrupted = false;
  working = map (λ t. t.queue) server.started;
  closed = false;
}

-- After the signal, with nothing left at work.
abbrev pub at_rest : Activity
at_rest = record {
  listening = false;
  accepting = false;
  notified = true;
  interrupted = true;
  working = [];
  closed = true;
}

abbrev pub after_run : Server → List RunAction → Option Activity
after_run server actions = act_all actions (some (queues_at_work server))

remove_each-all : (names : List Str) → remove_each names names ≡ []
remove_each-all [] = refl
remove_each-all (name ∷ names) = rw (str_eq_refl name) (remove_each-all names)

-- A server that was put together by any calls returns from Run exactly if its two sockets can be
-- opened. Then it has waited for the signal before it shut down, accepts no request any more, has no
-- queue at work and is closed: every queue that was started is joined after the last request was
-- accepted and before the server is closed.
pub run-assembled :
    (openers : Openers) (env : Env) (calls : List Call) (service : Str) (conf : IniFile)
    (server : Server) (addr : Str) (socket metrics : Option Error)
    → assemble openers env calls (new_server service conf) ≡ ok server
    → (((run server addr socket metrics).result ≡ ok tt) ↔ ((socket ≡ none) × (metrics ≡ none)))
      × ((run server addr socket metrics).result ≡ ok tt
          → after_run server (run server addr socket metrics).actions ≡ some at_rest)
unfolding run new_server
run-assembled openers env calls service conf server addr (some e) metrics h =
    ((λ r. cc, λ r. cc (r.0)), λ r. cc)
run-assembled openers env calls service conf server addr none (some e) h =
    ((λ r. cc, λ r. cc (r.1)), λ r. cc)
run-assembled openers env calls service conf server addr none none h =
    let managed = assemble-IsManaged openers env calls (new_server service conf) server refl h in
    ((λ r. (refl, refl), λ r. refl), λ r. rw (managed, remove_each-all server.queues) refl)
