-- ===== src/Webhooks/Batch/Laws.antt =====
-- A batch is all or nothing, whatever the stage.
use core_go_nopgp.Base.{
  length, arith, Bool, List, [], ◌∷◌, ◌++◌, Go, ok, err, panic, ◌≡◌, ◌≢◌, ◌⊎◌, inl, inr, refl, sym,
  ap, ◌∙◌, AllPairs, >>=-eq-ok, ok-injective,
}
use core_go_nopgp.Errors.{Error}
use core_go_nopgp.Database.Tx.{Answers, acked, tx_done, with_tx}
use core_go_nopgp.Database.Tx.Laws.{committed, dropped, refused, with_tx-IsAtomic}
use core_go_nopgp.Webhooks.Batch.{Scheduled, and_then, enqueue_tasks, queue_each, run_batch}

pub and_then-ok :
    {S T : Type 0} (rest : S → Go Error (List T) × S) (first : Go Error T × S) (tasks : List T)
    → (and_then rest first).0 ≡ ok tasks
    → (task : T) × (others : List T) × (first.0 ≡ ok task)
      × ((rest first.1).0 ≡ ok others)
      × (tasks ≡ task ∷ others)
and_then-ok rest (ok task, s) tasks h =
    let (others, got, same) = >>=-eq-ok (rest s).0 _ h in
    (task, others, refl, got, sym (ok-injective _ tasks same))
and_then-ok rest (err e, s) tasks h = cc
and_then-ok rest (panic e, s) tasks h = cc

pub and_then-state :
    {S T : Type 0} (rest : S → Go Error (List T) × S) (first : Go Error T × S) (task : T)
    → first.0 ≡ ok task
    → (and_then rest first).1 ≡ (rest first.1).1
and_then-state rest (ok made, s) task h = refl
and_then-state rest (err e, s) task h = cc
and_then-state rest (panic e, s) task h = cc

-- A relation that holds of each of a list and its task holds of one in the middle and some task.
pub AllPairs-middle :
    {W T : Type 0} (R : W → T → Type 0) (before after_it : List W) (w : W) (tasks : List T)
    → AllPairs R (before ++ w ∷ after_it) tasks
    → (task : T) × R w task
AllPairs-middle R [] after_it w (task ∷ tasks) (r, rs) = (task, r)
AllPairs-middle R [] after_it w [] h = absurd h
AllPairs-middle R (b ∷ before) after_it w (task ∷ tasks) (r, rs) =
    AllPairs-middle R before after_it w tasks rs
AllPairs-middle R (b ∷ before) after_it w [] h = absurd h

-- What holds of two lists in pairs holds of the elements at the same place.
pub AllPairs-at :
    {W T : Type 0} (R : W → T → Type 0) (ws ws' : List W) (w : W) (ts ts' : List T) (t : T)
    → length ws ≡ length ts
    → AllPairs R (ws ++ w ∷ ws') (ts ++ t ∷ ts')
    → R w t
AllPairs-at R [] ws' w [] ts' t same (r, rs) = r
AllPairs-at R [] ws' w (u ∷ ts) ts' t same h = absurd (omega (arith, same))
AllPairs-at R (v ∷ ws) ws' w [] ts' t same h = absurd (omega (arith, same))
AllPairs-at R (v ∷ ws) ws' w (u ∷ ts) ts' t same (r, rs) =
    AllPairs-at R ws ws' w ts ts' t (omega (arith, same)) rs

-- The stage, and what holds of a delivery and of the task that the stage makes of it.
module _ {S W T : Type 0} (stage : W → S → Go Error T × S) (IsTaskOf : W → T → Type 0)
    (stage-IsTaskOf : (w : W) (s : S) (task : T) → (stage w s).0 ≡ ok task → IsTaskOf w task) where
  queue_each-ok :
      (ws : List W) (s : S) (tasks : List T)
      → (queue_each stage ws s).0 ≡ ok tasks
      → AllPairs IsTaskOf ws tasks
  unfolding queue_each
  queue_each-ok [] s tasks h = rw (← ok-injective [] tasks h) tt
  queue_each-ok (w ∷ ws) s tasks h =
      let first = stage w s in
      let (task, others, made, got, same) = and_then-ok (queue_each stage ws) first tasks h in
      rw same (stage-IsTaskOf w s task made, queue_each-ok ws first.1 others got)

-- Either nothing has happened, or each delivery has its task, in order, and what the stages wrote
-- is stored, unless the commit found the transaction done.
pub data IsAllOrNothing {S W T : Type 0} (stage : W → S → Go Error T × S)
    (IsTaskOf : W → T → Type 0) (ws : List W) (answers : Answers) (s : S) (out : Scheduled S T)
    : Type 0 where
  nothing : out.enqueued ≡ [] → out.state ≡ s → IsAllOrNothing stage IsTaskOf ws answers s out
  everything :
      out.result ≡ ok tt
      → AllPairs IsTaskOf ws out.enqueued
      → ((answers.commit ≡ acked) × (out.state ≡ (queue_each stage ws s).1))
        ⊎ ((answers.commit ≡ tx_done) × (out.state ≡ s))
      → IsAllOrNothing stage IsTaskOf ws answers s out

module _ {S W T : Type 0} (stage : W → S → Go Error T × S) (IsTaskOf : W → T → Type 0)
    (stage-IsTaskOf : (w : W) (s : S) (task : T) → (stage w s).0 ≡ ok task → IsTaskOf w task)
    (ws : List W) (answers : Answers) (s : S) where
  enqueue_tasks-IsAllOrNothing :
      (t : S) (result : Go Error (List T))
      → ((tasks : List T)
          → result ≡ ok tasks
          → ((queue_each stage ws s).0 ≡ ok tasks)
            × (((answers.commit ≡ acked) × (t ≡ (queue_each stage ws s).1))
                ⊎ ((answers.commit ≡ tx_done) × (t ≡ s))))
      → (((tasks : List T) → result ≢ ok tasks) → t ≡ s)
      → IsAllOrNothing stage IsTaskOf ws answers s (enqueue_tasks result t)
  enqueue_tasks-IsAllOrNothing t (ok tasks) stored kept =
      let (ran, state) = stored tasks refl in
      everything refl (queue_each-ok stage IsTaskOf stage-IsTaskOf ws s tasks ran) state
  enqueue_tasks-IsAllOrNothing t (err e) stored kept = nothing refl (kept (λ tasks h. cc))
  enqueue_tasks-IsAllOrNothing t (panic e) stored kept = nothing refl (kept (λ tasks h. cc))

  enqueued-tasks :
      (t : S) (result : Go Error (List T)) (tasks : List T)
      → result ≡ ok tasks
      → (enqueue_tasks result t).enqueued ≡ tasks
  enqueued-tasks t (ok l) tasks h = ok-injective l tasks h
  enqueued-tasks t (err e) tasks h = cc
  enqueued-tasks t (panic e) tasks h = cc

  tasks_of_ok :
      (t : S) (result : Go Error (List T))
      → (enqueue_tasks result t).result ≡ ok tt
      → (tasks : List T) × (result ≡ ok tasks)
  tasks_of_ok t (ok tasks) h = (tasks, refl)
  tasks_of_ok t (err e) h = cc
  tasks_of_ok t (panic e) h = cc

  state-tasks : (t : S) (result : Go Error (List T)) → (enqueue_tasks result t).state ≡ t
  state-tasks t (ok tasks) = refl
  state-tasks t (err e) = refl
  state-tasks t (panic e) = refl

  -- Where a batch returns and its transaction was committed, the loop made the tasks that are
  -- enqueued and left what is stored.
  pub run_batch-queue_each :
      (present : Bool)
      → (run_batch stage present answers ws s).result ≡ ok tt
      → answers.commit ≡ acked
      → ((queue_each stage ws s).0 ≡ ok (run_batch stage present answers ws s).enqueued)
        × ((queue_each stage ws s).1 ≡ (run_batch stage present answers ws s).state)
  unfolding run_batch
  run_batch-queue_each present done stored =
      let run = with_tx present answers (queue_each stage ws) s in
      elim (with_tx-IsAtomic present answers (queue_each stage ws) s) [
        | committed tasks c ran result state ↦ (
          ran ∙ ap ok (sym (enqueued-tasks run.state run.result tasks result)),
          sym (state-tasks run.state run.result ∙ state),
        )
        | dropped tasks c ran result state ↦ cc (c, stored)
        | refused no_value state ↦
            let (tasks, result) = tasks_of_ok run.state run.result done in
            absurd (no_value tasks result)
      ]

  -- A batch, as the transaction and the loop run it, is one of the two.
  pub run_batch-IsAllOrNothing :
      (present : Bool)
      → IsAllOrNothing stage IsTaskOf ws answers s (run_batch stage present answers ws s)
  unfolding run_batch
  run_batch-IsAllOrNothing present =
      let run = with_tx present answers (queue_each stage ws) s in
      elim (with_tx-IsAtomic present answers (queue_each stage ws) s) [
        | committed tasks c ran result state ↦
            enqueue_tasks-IsAllOrNothing run.state run.result (λ l h. (cc, inl (c, state)))
              (λ no_value. absurd (no_value tasks result))
        | dropped tasks c ran result state ↦
            enqueue_tasks-IsAllOrNothing run.state run.result (λ l h. (cc, inr (c, state)))
              (λ no_value. state)
        | refused no_value state ↦
            enqueue_tasks-IsAllOrNothing run.state run.result (λ l h. absurd (no_value l h))
              (λ _. state)
      ]
