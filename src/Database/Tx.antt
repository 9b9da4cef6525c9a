-- ===== src/Database/Tx.antt =====
-- `WithTx` of database/middleware.go, over whatever the database holds. The transaction works on
-- a copy, which a commit makes the database's.
pub mod Laws
use core_go_nopgp.Base.{
  Bool, true, false, ◌&&◌, Option, none, some, List, [], ◌∷◌, ◌++◌, Go, ok, err, panic, ◌>>=◌, ◌>>◌,
}
use core_go_nopgp.Errors.{Error, invalid_database_context}

-- What tx.Commit and tx.Rollback answer. `tx_done` is sql.ErrTxDone: the transaction was ended
-- before, by the code itself, or by a rollback that the end of its context caused.
pub data Ack : Type 0 where
  acked tx_done : Ack
  failed : Error → Ack

-- The answers of the database during one call: the errors of Conn and BeginTx, if any, and the
-- answers to Commit and to the Rollback that follows an error.
pub record Answers : Type 0 where
  pub conn : Option Error
  pub begin : Option Error
  pub rollback : Ack
  pub commit : Ack

pub data Action : Type 0 where
  open_conn begin_tx roll_back commit_tx close_conn : Action

pub record TxRun (S A : Type 0) : Type 0 where
  pub result : Go Error A
  pub state : S
  pub actions : List Action

abbrev is_none : Option Error → Bool
is_none none = true
is_none (some e) = false

-- `DBForContext` and `ForContext`, by whether the context has a database and whether it gives a
-- connection.
abbrev pub db_for_context : Bool → Go Error (Unit {0})
db_for_context false = panic invalid_database_context
db_for_context true = ok tt

abbrev connected : Option Error → Go Error (Unit {0})
connected none = ok tt
connected (some e) = err e

unfoldable pub conn_for_context : Bool → Answers → Go Error (Unit {0})
conn_for_context present answers = do db_for_context present; connected answers.conn

module _ {S A : Type 0} where
  -- The two branches after `err = fn(tx)`, and an unwinding panic. The deferred Rollback and Close
  -- run in each case; what the deferred Rollback answers is dropped.
  abbrev pub end_error : Error → Ack → S → TxRun S A
  end_error e (failed f) s = record {
    result = panic f;
    state = s;
    actions = open_conn ∷ begin_tx ∷ roll_back ∷ roll_back ∷ close_conn ∷ [];
  }
  end_error e _ s = record {
    result = err e;
    state = s;
    actions = open_conn ∷ begin_tx ∷ roll_back ∷ roll_back ∷ close_conn ∷ [];
  }

  abbrev pub end_success : A → Ack → S → S → TxRun S A
  end_success a acked s t = record {
    result = ok a;
    state = t;
    actions = open_conn ∷ begin_tx ∷ commit_tx ∷ roll_back ∷ close_conn ∷ [];
  }
  end_success a tx_done s t = record {
    result = ok a;
    state = s;
    actions = open_conn ∷ begin_tx ∷ commit_tx ∷ roll_back ∷ close_conn ∷ [];
  }
  end_success a (failed f) s t = record {
    result = panic f;
    state = s;
    actions = open_conn ∷ begin_tx ∷ commit_tx ∷ roll_back ∷ close_conn ∷ [];
  }

  abbrev pub after_fn : Answers → S → Go Error A × S → TxRun S A
  after_fn answers s (ok a, t) = end_success a answers.commit s t
  after_fn answers s (err e, t) = end_error e answers.rollback s
  after_fn answers s (panic e, t) = record {
    result = panic e;
    state = s;
    actions = open_conn ∷ begin_tx ∷ roll_back ∷ close_conn ∷ [];
  }

  abbrev pub after_begin : Option Error → Answers → (S → Go Error A × S) → S → TxRun S A
  after_begin (some e) answers fn s = record {
    result = err e;
    state = s;
    actions = open_conn ∷ close_conn ∷ [];
  }
  after_begin none answers fn s = after_fn answers s (fn s)

  abbrev pub after_conn : Option Error → Answers → (S → Go Error A × S) → S → TxRun S A
  after_conn (some e) answers fn s = record { result = err e; state = s; actions = [] }
  after_conn none answers fn s = after_begin answers.begin answers fn s

  -- `WithTx`; the first argument says whether the context has a database.
  unfoldable pub with_tx : Bool → Answers → (S → Go Error A × S) → S → TxRun S A
  with_tx false answers fn s = record {
    result = panic invalid_database_context;
    state = s;
    actions = [];
  }
  with_tx true answers fn s = after_conn answers.conn answers fn s

-- `WithTx` round a function that only reads, seen by its result.
unfoldable pub read_tx : {A : Type 0} → Bool → Answers → Go Error A → Go Error A
unfolding with_tx
read_tx has_database answers outcome =
    (with_tx has_database answers (λ (s : Unit {0}). (outcome, s)) tt).result

-- Whether `WithTx` comes to run its function.
unfoldable pub runs_fn : Bool → Answers → Bool
runs_fn has_database answers = has_database && is_none answers.conn && is_none answers.begin
