-- ===== src/Webhooks/Legacy.antt =====
-- webhooks/legacy.go: the subscriptions that a legacy webhook is for. The rows are those
-- that the database gives for the LIKE clause.
pub mod Laws
pub mod Schedule
use core_go_nopgp.Base.{
  panicking, ℤ, Str, str_eq, split, any, Bool, List, [], ◌∷◌, Option, Time, if◌then◌else◌, Go, ok,
  err, ◌>>=◌,
}
use core_go_nopgp.Errors.{Error}
use core_go_nopgp.Auth.Types.{Context}
use core_go_nopgp.Auth.Env.{Rows, unavailable, available}
use core_go_nopgp.Database.Tx.{Answers, read_tx}

pub record LegacySubscription : Type 0 where
  pub id : ℤ
  pub created : Time
  pub url : Str
  pub events : List Str

-- A row, with the events as they are stored.
pub record LegacyRow : Type 0 where
  pub id : ℤ
  pub created : Time
  pub url : Str
  pub events : Str

abbrev pub subscription_of : LegacyRow → LegacySubscription
subscription_of row = record {
  id = row.id;
  created = row.created;
  url = row.url;
  events = split b',' row.events;
}

-- The loop over the events of a subscription.
abbrev pub has_event : Str → LegacySubscription → Bool
has_event event sub = any (λ e. str_eq e event) sub.events

-- The loop over the rows; an error that rows.Err would give is not asked for.
unfoldable pub scan_legacy : Str → List (Go Error LegacyRow) → Go Error (List LegacySubscription)
scan_legacy event [] = ok []
scan_legacy event (row ∷ rows) = do
  given ← panicking row
  let sub = subscription_of given
  subs ← scan_legacy event rows
  ok (if has_event event sub then sub ∷ subs else subs)

abbrev legacy_from_rows : Str → Rows LegacyRow → Go Error (List LegacySubscription)
legacy_from_rows event (unavailable e) = err e
legacy_from_rows event (available rows rows_err) = scan_legacy event rows

-- `fetchSubscriptions`
unfoldable pub fetch_legacy_subscriptions :
    Context → Answers → Str → Rows LegacyRow → Go Error (List LegacySubscription)
unfolding scan_legacy
fetch_legacy_subscriptions ctx answers event rows =
    read_tx ctx.has_database answers (legacy_from_rows event rows)
