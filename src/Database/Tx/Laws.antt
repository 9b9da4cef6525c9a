-- ===== src/Database/Tx/Laws.antt =====
-- A transaction is all or nothing, and leaves no connection open.
use core_go_nopgp.Base.{
  Bool, true, false, Option, none, some, List, [], ◌∷◌, Go, ok, err, panic, ◌≡◌, ◌≢◌, refl, arith,
}
use core_go_nopgp.Errors.{Error}
use core_go_nopgp.Database.Tx.{
  Ack, acked, tx_done, failed, Answers, Action, open_conn, begin_tx, roll_back, commit_tx,
  close_conn, TxRun, end_success, end_error, after_fn, after_conn, connected, conn_for_context,
  with_tx, read_tx,
}

module _ {S A : Type 0} where
  -- What a run of a transaction may have come to, against the outcome of its function: the commit
  -- stored what the function left; or it found the transaction done, and nothing is stored; or the
  -- run returned no value, and nothing is stored.
  pub data IsAtomic (answers : Answers) (before : S) (outcome : Go Error A × S) (run : TxRun S A)
      : Type 0 where
    committed :
        (a : A)
        → answers.commit ≡ acked
        → outcome.0 ≡ ok a
        → run.result ≡ ok a
        → run.state ≡ outcome.1
        → IsAtomic answers before outcome run
    dropped :
        (a : A)
        → answers.commit ≡ tx_done
        → outcome.0 ≡ ok a
        → run.result ≡ ok a
        → run.state ≡ before
        → IsAtomic answers before outcome run
    refused :
        ((a : A) → run.result ≢ ok a) → run.state ≡ before → IsAtomic answers before outcome run

  end_success-IsAtomic :
      (answers : Answers) (a : A) (s t : S) (ack : Ack)
      → answers.commit ≡ ack
      → IsAtomic answers s (ok a, t) (end_success a ack s t)
  end_success-IsAtomic answers a s t acked h = committed a h refl refl refl
  end_success-IsAtomic answers a s t tx_done h = dropped a h refl refl refl
  end_success-IsAtomic answers a s t (failed f) h = refused (λ b e. cc) refl

  end_error-IsAtomic :
      (answers : Answers) (e : Error) (s t : S) (ack : Ack)
      → IsAtomic answers s (err e, t) (end_error e ack s)
  end_error-IsAtomic answers e s t (failed f) = refused (λ b h. cc) refl
  end_error-IsAtomic answers e s t _ = refused (λ b h. cc) refl

  after_fn-IsAtomic :
      (answers : Answers) (s : S) (outcome : Go Error A × S)
      → IsAtomic answers s outcome (after_fn answers s outcome)
  after_fn-IsAtomic answers s (ok a, t) = end_success-IsAtomic answers a s t answers.commit refl
  after_fn-IsAtomic answers s (err e, t) = end_error-IsAtomic answers e s t answers.rollback
  after_fn-IsAtomic answers s (panic e, t) = refused (λ b h. cc) refl

  after_conn-IsAtomic :
      (answers : Answers) (fn : S → Go Error A × S) (s : S) (conn begin : Option Error)
      → answers.begin ≡ begin
      → IsAtomic answers s (fn s) (after_conn conn answers fn s)
  after_conn-IsAtomic answers fn s (some e) begin h = refused (λ b k. cc) refl
  after_conn-IsAtomic answers fn s none (some e) h = simp h (refused (λ b k. cc) refl)
  after_conn-IsAtomic answers fn s none none h = simp h (after_fn-IsAtomic answers s (fn s))

  -- A transaction that does not return a value has changed nothing. One that does has run its
  -- function to that value, and has stored what the function left, unless the commit found the
  -- transaction done, and then nothing is stored.
  pub with_tx-IsAtomic :
      (present : Bool) (answers : Answers) (fn : S → Go Error A × S) (s : S)
      → IsAtomic answers s (fn s) (with_tx present answers fn s)
  unfolding with_tx
  with_tx-IsAtomic false answers fn s = refused (λ b h. cc) refl
  with_tx-IsAtomic true answers fn s =
      after_conn-IsAtomic answers fn s answers.conn answers.begin refl

  after_conn_of_err :
      (answers : Answers) (fn : S → Go Error A × S) (s : S) (o : Option Error) (e : Error)
      → connected o ≡ err e
      → (after_conn o answers fn s).result ≡ err e
  after_conn_of_err answers fn s none e h = cc
  after_conn_of_err answers fn s (some f) e h = cc

  -- The error of `ForContext` is that of `WithTx`.
  pub with_tx_of_conn_error :
      (present : Bool) (answers : Answers) (fn : S → Go Error A × S) (s : S) (e : Error)
      → conn_for_context present answers ≡ err e
      → (with_tx present answers fn s).result ≡ err e
  unfolding with_tx conn_for_context
  with_tx_of_conn_error false answers fn s e h = cc
  with_tx_of_conn_error true answers fn s e h = after_conn_of_err answers fn s answers.conn e h

  end_error-err :
      (e : Error) (ack : Ack) (s : S)
      → ((f : Error) → ack ≢ failed f)
      → ((end_error {A = A} e ack s).result ≡ err e) × ((end_error {A = A} e ack s).state ≡ s)
  end_error-err e acked s r = (refl, refl)
  end_error-err e tx_done s r = (refl, refl)
  end_error-err e (failed f) s r = absurd (r f refl)

  -- An error of the function is passed on, and what it had written is gone, if the rollback does
  -- not fail.
  pub with_tx_of_err :
      (answers : Answers) (fn : S → Go Error A × S) (s t : S) (e : Error)
      → answers.conn ≡ none
      → answers.begin ≡ none
      → ((f : Error) → answers.rollback ≢ failed f)
      → fn s ≡ (err e, t)
      → ((with_tx true answers fn s).result ≡ err e) × ((with_tx true answers fn s).state ≡ s)
  unfolding with_tx
  with_tx_of_err answers fn s t e c b r f = simp (c, b, f) (end_error-err e answers.rollback s r)

-- The state of the connection: closed, open, in a transaction, or open after it.
pub data Phase : Type 0 where
  closed opened working ended : Phase

abbrev pub advance : Phase → Action → Option Phase
advance closed open_conn = some opened
advance opened begin_tx = some working
advance opened close_conn = some closed
advance working commit_tx = some ended
advance working roll_back = some ended
advance ended roll_back = some ended
advance ended close_conn = some closed
advance _ _ = none

abbrev pub advance_all : Option Phase → List Action → Option Phase
advance_all none actions = none
advance_all (some phase) [] = some phase
advance_all (some phase) (a ∷ actions) = advance_all (advance phase a) actions

-- On every path, panics included, the actions come in turn and the connection is closed in the
-- end, after the transaction has been ended.
pub with_tx_closed :
    {S A : Type 0} (present : Bool) (answers : Answers) (fn : S → Go Error A × S) (s : S)
    → advance_all (some closed) (with_tx present answers fn s).actions ≡ some closed
unfolding with_tx
with_tx_closed present answers fn s = ground arith

-- A value that `WithTx` returns is that of its function.
pub read_tx-ok :
    {A : Type 0} (present : Bool) (answers : Answers) (outcome : Go Error A) {a : A}
    → read_tx present answers outcome ≡ ok a
    → outcome ≡ ok a
unfolding read_tx
read_tx-ok false answers outcome h = cc
read_tx-ok true answers (ok b) h = ground arith
read_tx-ok true answers (err e) h = ground arith
read_tx-ok true answers (panic e) h = ground arith
