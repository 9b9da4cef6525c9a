-- ===== src/Tests/Subscriptions.antt =====
-- Legacy subscriptions and cursors at concrete inputs.
use core_go_nopgp.Database.Tx.{read_tx}
use core_go_nopgp.Crypto.{encrypt}
use core_go_nopgp.Base.{
  pos, Str, codes, str_eq, split, none, some, List, [], ◌∷◌, ◌++◌, map, Go, ok, ◌≡◌, refl, ℕ, ℤ,
  suc, true,
}
use core_go_nopgp.Errors.{Error}
use core_go_nopgp.Model.{Json, page, new_cursor, unmarshal_gql, marshal_gql}
use core_go_nopgp.Model.Laws.{IsFirstPage, new_cursor-IsFirstPage, unmarshal_gql-marshal_gql}
use core_go_nopgp.Webhooks.Legacy.{LegacyRow, subscription_of, scan_legacy}
use core_go_nopgp.Webhooks.Legacy.Laws.{AreSubscribed, scan_legacy-AreSubscribed}
use core_go_nopgp.Tests.World.{at, toy_primitives, toy_keys, toy_answers, toy_context}
use core_go_nopgp.Tests.Tokens.{toy_documented}
use core_go_nopgp.Webhooks.Batch.Laws.{IsAllOrNothing}
use core_go_nopgp.Webhooks.Legacy.Schedule.{
  LegacyDeliveryRow, LegacyTask, legacy_schedule, with_uuids, legacy_stage2, run_legacy_task,
}
use core_go_nopgp.Webhooks.Legacy.Schedule.Laws.{IsLegacyDelivery, legacy_schedule-IsAllOrNothing}

abbrev first : LegacyRow
first = record {
  id = pos 1;
  created = at 1;
  url = codes "https://a";
  events = codes "repo:update,repo:post";
}

abbrev second : LegacyRow
second = record {
  id = pos 2;
  created = at 2;
  url = codes "https://b";
  events = codes "repo:post-update";
}

scan_legacy-AreSubscribed_example :
    (rows : List LegacyRow) × (◌≡◌ {A = List (Go Error LegacyRow)}
      (ok first ∷ ok second ∷ [])
      (map (λ row. ok row) rows))
    × AreSubscribed (codes "repo:post") rows (subscription_of first ∷ [])
unfolding scan_legacy split str_eq
scan_legacy-AreSubscribed_example =
    scan_legacy-AreSubscribed (codes "repo:post") (ok first ∷ ok second ∷ [])
      (subscription_of first ∷ []) refl

new_cursor-IsFirstPage_example :
    IsFirstPage (some (record { count = some (pos 10); search = none })) (page (pos 10))
unfolding new_cursor
new_cursor-IsFirstPage_example =
    new_cursor-IsFirstPage (some (record { count = some (pos 10); search = none }))

abbrev toy_json : Json
toy_json = record { marshal = λ cur. codes "{}"; unmarshal = λ text. some (page (pos 10)) }

unmarshal_gql-marshal_gql_example :
    (token : Str) × (codes "\"{}\"" ≡ b'"' ∷ (token ++ b'"' ∷ []))
    × (unmarshal_gql toy_primitives toy_keys toy_json (some token) ≡ ok (page (pos 10)))
unfolding marshal_gql encrypt
unmarshal_gql-marshal_gql_example =
    unmarshal_gql-marshal_gql toy_primitives toy_documented toy_keys toy_json (page (pos 10))
      (codes "\"{}\"") refl refl

abbrev legacy_insert : LegacyDeliveryRow → ℕ → Go Error ℤ × ℕ
legacy_insert row n = (ok (pos n), suc n)

abbrev post_task : LegacyTask
post_task = record {
  name = codes "repo";
  event = codes "repo:post";
  payload = codes "p";
  subscriptions = subscription_of first ∷ [];
}

legacy_schedule-IsAllOrNothing_example :
    (rows : List LegacyRow) × (◌≡◌ {A = List (Go Error LegacyRow)}
      (ok first ∷ ok second ∷ [])
      (map (λ row. ok row) rows))
    × AreSubscribed (codes "repo:post") rows (subscription_of first ∷ [])
    × IsAllOrNothing
        (legacy_stage2
          (λ headers. codes "")
          legacy_insert
          (codes "repo")
          (codes "repo:post")
          (codes "p"))
        (IsLegacyDelivery (codes "repo") (codes "repo:post") (codes "p"))
        (with_uuids (λ n. codes "uuid") 0 (subscription_of first ∷ []))
        toy_answers
        3
        (run_legacy_task
          (λ headers. codes "")
          legacy_insert
          (λ n. codes "uuid")
          true
          toy_answers
          post_task
          3)
unfolding legacy_schedule read_tx split str_eq
legacy_schedule-IsAllOrNothing_example =
    legacy_schedule-IsAllOrNothing (λ headers. codes "") legacy_insert toy_context toy_answers
      toy_answers (codes "repo") (codes "repo:post") (codes "p") (ok first ∷ ok second ∷ []) none
      post_task (λ n. codes "uuid") true 3 refl
