-- ===== src/Webhooks/Legacy/Laws.antt =====
-- Which subscriptions a legacy webhook is delivered to.
use mathlib.Core.Bool.{false≢true}
use core_go_nopgp.Base.{
  panicking, panicking-eq-ok, Str, str_eq, str_eq_iff, split, any, true, List, [], ◌∷◌, map, Go, ok,
  if◌then◌else◌, ◌≡◌, ◌⊎◌, inl, inr, refl, subst, sym, ◌∙◌, >>=-eq-ok, ok-injective, Bool-cases,
}
use core_go_nopgp.Errors.{Error}
use core_go_nopgp.Webhooks.Legacy.{
  LegacySubscription, LegacyRow, subscription_of, has_event, scan_legacy,
}

-- An event is in a list.
abbrev pub IsIn : Str → List Str → Type 0
IsIn event [] = ⊥
IsIn event (e ∷ events) = (e ≡ event) ⊎ IsIn event events

any-IsIn :
    (event : Str) (events : List Str) → any (λ e. str_eq e event) events ≡ true → IsIn event events
any-IsIn event [] h = cc
any-IsIn event (e ∷ events) h = elim (Bool-cases (str_eq e event)) [
  | inl same ↦ inl ((str_eq_iff e event).0 same)
  | inr other ↦ inr (any-IsIn event events (rw other at h))
]

IsIn-any :
    (event : Str) (events : List Str) → IsIn event events → any (λ e. str_eq e event) events ≡ true
IsIn-any event [] h = absurd h
IsIn-any event (e ∷ events) (inl same) = rw ((str_eq_iff e event).1 same) refl
IsIn-any event (e ∷ events) (inr later) = elim (Bool-cases (str_eq e event)) [
  | inl same ↦ rw same refl
  | inr other ↦ rw other (IsIn-any event events later)
]

-- The subscriptions are those of the rows that were read and whose events hold the event, in order.
pub data AreSubscribed (event : Str) : List LegacyRow → List LegacySubscription → Type 0 where
  done : AreSubscribed event [] []
  keep :
      (row : LegacyRow) (rows : List LegacyRow) (subs : List LegacySubscription)
      → IsIn event (split b',' row.events)
      → AreSubscribed event rows subs
      → AreSubscribed event (row ∷ rows) (subscription_of row ∷ subs)
  skip :
      (row : LegacyRow) (rows : List LegacyRow) (subs : List LegacySubscription)
      → ¬ IsIn event (split b',' row.events)
      → AreSubscribed event rows subs
      → AreSubscribed event (row ∷ rows) subs

kept_or_not :
    (event : Str) (row : LegacyRow) (rows : List LegacyRow) (subs : List LegacySubscription)
    → AreSubscribed event rows subs
    → AreSubscribed event
        (row ∷ rows)
        (if has_event event (subscription_of row) then subscription_of row ∷ subs else subs)
kept_or_not event row rows subs h = elim (Bool-cases (has_event event (subscription_of row))) [
  | inl valid ↦ rw valid (keep row rows subs (any-IsIn event (split b',' row.events) valid) h)
  | inr invalid ↦ rw invalid (
      skip row rows subs (λ i. false≢true (sym invalid ∙ IsIn-any event (split b',' row.events) i))
        h)
]

-- Where the rows could be read, the subscriptions to a legacy event are those, in the order of the
-- rows, whose events, between commas, hold the event as a whole: a row that only has it as a part
-- of another event is left out.
pub scan_legacy-AreSubscribed :
    (event : Str) (read : List (Go Error LegacyRow)) (subs : List LegacySubscription)
    → scan_legacy event read ≡ ok subs
    → (rows : List LegacyRow) × (read ≡ map (λ row. ok row) rows) × AreSubscribed event rows subs
unfolding scan_legacy
scan_legacy-AreSubscribed event [] subs h = ([], refl, rw (← ok-injective [] subs h) done)
scan_legacy-AreSubscribed event (first ∷ read) subs h =
    let (row, got, h₁) = >>=-eq-ok (panicking first) _ h in
    let (others, scanned, same) = >>=-eq-ok (scan_legacy event read) _ h₁ in
    let (rows, all_read, subscribed) = scan_legacy-AreSubscribed event read others scanned in
    (
      row ∷ rows,
      cc (panicking-eq-ok first got, all_read),
      subst (AreSubscribed event (row ∷ rows)) (ok-injective _ subs same)
          (kept_or_not event row rows others subscribed),
    )
