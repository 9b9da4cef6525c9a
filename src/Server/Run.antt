-- ===== src/Server/Run.antt =====
-- server/server.go: `Run`, by what it does in order. The two sockets are parameters; the signal is
-- the wait's end.
pub mod Laws
use core_go_nopgp.Base.{ℕ, Str, codes, Option, none, some, List, [], ◌∷◌, Go, ok, panic}
use core_go_nopgp.Errors.{Error}
use core_go_nopgp.Server.Assembly.{Server}

pub data RunAction : Type 0 where
  listen : Str → RunAction
  serve : RunAction
  listen_metrics serve_metrics : RunAction
  notify_interrupt wait_for_interrupt reset_interrupt : RunAction
  -- qserver.Shutdown with a deadline, in seconds
  shut_down : ℕ → RunAction
  join : List Str → RunAction
  close : RunAction

pub record Running : Type 0 where
  pub result : Go Error (Unit {0})
  pub actions : List RunAction

-- From the signal on.
abbrev pub warm_shutdown : Server → List RunAction
warm_shutdown server = reset_interrupt ∷ shut_down 30 ∷ join server.queues ∷ close ∷ []

abbrev with_metrics : Server → Option Error → Str → Running
with_metrics server (some e) addr = record {
  result = panic e;
  actions = listen addr ∷ serve ∷ listen_metrics ∷ [];
}
with_metrics server none addr = record {
  result = ok tt;
  actions =
      listen addr
      ∷ serve
      ∷ listen_metrics
      ∷ serve_metrics
      ∷ notify_interrupt
      ∷ wait_for_interrupt
      ∷ warm_shutdown server;
}

-- `Run`, with the address of config.Addr and the errors of the two sockets, if any.
unfoldable pub run : Server → Str → Option Error → Option Error → Running
run server addr (some e) metrics = record { result = panic e; actions = listen addr ∷ [] }
run server addr none metrics = with_metrics server metrics addr
