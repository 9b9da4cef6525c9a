-- ===== src/Webhooks/Legacy/Schedule/Laws.antt =====
-- A legacy webhook is scheduled for the subscriptions to its event, for all or for none.
use core_go_nopgp.Base.{
  arith, ℕ, ℤ, Str, Bool, Option, some, List, [], ◌∷◌, map, Map, Go, ok, err, panic, ◌≡◌, refl,
  >>=-eq-ok, ok-injective,
}
use core_go_nopgp.Errors.{Error}
use core_go_nopgp.Auth.Types.{Context}
use core_go_nopgp.Auth.Env.{available}
use core_go_nopgp.Database.Tx.{Answers}
use core_go_nopgp.Database.Tx.Laws.{read_tx-ok}
use core_go_nopgp.Webhooks.Batch.Laws.{IsAllOrNothing, run_batch-IsAllOrNothing}
use core_go_nopgp.Webhooks.Legacy.{
  LegacySubscription, LegacyRow, scan_legacy, fetch_legacy_subscriptions,
}
use core_go_nopgp.Webhooks.Legacy.Laws.{AreSubscribed, scan_legacy-AreSubscribed}
use core_go_nopgp.Webhooks.Legacy.Schedule.{
  LegacyDeliveryRow, LegacyDelivery, LegacyTask, legacy_headers, legacy_row, legacy_task,
  legacy_schedule, with_uuids, legacy_stage2, run_legacy_task,
}

-- A delivery goes to the URL of its subscription, with the payload and the headers of the event,
-- and can be tried again five times.
abbrev pub IsLegacyDelivery : Str → Str → Str → Str × LegacySubscription → LegacyDelivery → Type 0
IsLegacyDelivery name event payload (uuid, sub) delivery =
    (delivery.name ≡ name)
    × (delivery.url ≡ sub.url)
    × (delivery.headers ≡ legacy_headers event uuid)
    × (delivery.payload ≡ payload)
    × (delivery.retries ≡ 5)

legacy_task-some :
    (name event payload : Str) (fetched : Go Error (List LegacySubscription)) (task : LegacyTask)
    → legacy_task name event payload fetched ≡ ok (some task)
    → (fetched ≡ ok task.subscriptions)
      × (task.name ≡ name)
      × (task.event ≡ event)
      × (task.payload ≡ payload)
legacy_task-some name event payload (err e) task h = cc
legacy_task-some name event payload (panic e) task h = cc
legacy_task-some name event payload (ok []) task h = cc
legacy_task-some name event payload (ok (sub ∷ subs)) task h = ground arith

module _ {S : Type 0} (write_headers : Map Str → Str)
    (insert_row : LegacyDeliveryRow → S → Go Error ℤ × S) where
  legacy_stage2-IsLegacyDelivery :
      (name event payload : Str) (w : Str × LegacySubscription) (s : S) (task : LegacyDelivery)
      → (legacy_stage2 write_headers insert_row name event payload w s).0 ≡ ok task
      → IsLegacyDelivery name event payload w task
  unfolding legacy_stage2
  legacy_stage2-IsLegacyDelivery name event payload (uuid, sub) s task h =
      let (id, _, same) =
        >>=-eq-ok (insert_row (legacy_row write_headers insert_row name event payload uuid sub) s).0
          _ h in
      rw (← ok-injective _ task same) (refl, refl, refl, refl, refl)

  -- The task that Schedule enqueues has, in the order of the rows, the subscriptions to the event.
  -- When it is run it enqueues a delivery to each of them, with the payload, and stores what was
  -- written, unless the commit found the transaction done, and then nothing is stored; or it
  -- enqueues and stores nothing.
  pub legacy_schedule-IsAllOrNothing :
      (ctx : Context) (reading writing : Answers) (name event payload : Str)
      (read : List (Go Error LegacyRow)) (rows_err : Option Error) (task : LegacyTask)
      (new_uuid : ℕ → Str) (has_database : Bool) (s : S)
      → legacy_schedule ctx reading name event payload (available read rows_err) ≡ ok (some task)
      → (rows : List LegacyRow) × (read ≡ map (λ row. ok row) rows)
        × AreSubscribed event rows task.subscriptions
        × IsAllOrNothing
            (legacy_stage2 write_headers insert_row task.name task.event task.payload)
            (IsLegacyDelivery name event payload)
            (with_uuids new_uuid 0 task.subscriptions)
            writing
            s
            (run_legacy_task write_headers insert_row new_uuid has_database writing task s)
  unfolding legacy_schedule fetch_legacy_subscriptions run_legacy_task
  legacy_schedule-IsAllOrNothing ctx reading writing name event payload read rows_err task new_uuid
        has_database s h =
      let (fetched, n, e, p) = legacy_task-some name event payload _ task h in
      let scanned = read_tx-ok ctx.has_database reading (scan_legacy event read) fetched in
      let (rows, all_read, subscribed) =
        scan_legacy-AreSubscribed event read task.subscriptions scanned in
      (
        rows,
        all_read,
        subscribed,
        rw (n, e, p)
            (run_batch-IsAllOrNothing (legacy_stage2 write_headers insert_row name event payload)
              (IsLegacyDelivery name event payload)
              (legacy_stage2-IsLegacyDelivery name event payload)
              (with_uuids new_uuid 0 task.subscriptions) writing s has_database),
      )
