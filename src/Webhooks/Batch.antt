-- ===== src/Webhooks/Batch.antt =====
-- What the schedulers of webhooks/queue.go and webhooks/legacy.go share: a transaction in which a
-- loop makes a task for each delivery, and the enqueueing of the tasks after it. The stage that
-- makes a task is a parameter, and so is the database, S.
pub mod Laws
use core_go_nopgp.Base.{Bool, List, [], ◌∷◌, Go, ok, err, panic, ◌>>=◌}
use core_go_nopgp.Errors.{Error}
use core_go_nopgp.Database.Tx.{Answers, with_tx}

-- What a scheduling comes to: its error, the database, and the tasks that it enqueued.
pub record Scheduled (S T : Type 0) : Type 0 where
  pub result : Go Error (Unit {0})
  pub state : S
  pub enqueued : List T

abbrev pub not_scheduled : {S T : Type 0} → Go Error (Unit {0}) → S → Scheduled S T
not_scheduled result s = record { result = result; state = s; enqueued = [] }

module _ {S T : Type 0} where
  -- A task, and what the rest of the loop makes of the database that it left.
  abbrev pub and_then : (S → Go Error (List T) × S) → Go Error T × S → Go Error (List T) × S
  and_then rest (ok task, s) = let (tasks, t) = rest s in ((do l ← tasks; ok (task ∷ l)), t)
  and_then rest (err e, s) = (err e, s)
  and_then rest (panic e, s) = (panic e, s)

  -- Past the transaction, where the tasks are enqueued.
  abbrev pub enqueue_tasks : Go Error (List T) → S → Scheduled S T
  enqueue_tasks (ok tasks) s = record { result = ok tt; state = s; enqueued = tasks }
  enqueue_tasks (err e) s = not_scheduled (err e) s
  enqueue_tasks (panic e) s = not_scheduled (panic e) s

module _ {S W T : Type 0} (stage : W → S → Go Error T × S) where
  -- The loop, which ends at the first error.
  unfoldable pub queue_each : List W → S → Go Error (List T) × S
  queue_each [] s = (ok [], s)
  queue_each (w ∷ ws) s = and_then (queue_each ws) (stage w s)

  unfoldable pub run_batch : Bool → Answers → List W → S → Scheduled S T
  unfolding queue_each
  run_batch has_database answers ws s =
      let run = with_tx has_database answers (queue_each ws) s in enqueue_tasks run.result run.state
