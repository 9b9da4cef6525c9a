-- ===== src/Auth/Oauth2/Threads/Laws.antt =====
-- However the threads of OAuth2 interleave, they end, with what one of the two orders gives.
use core_go_nopgp.Base.{
  Str, ℕ, zero, suc, ◌+◌, ◌<◌, Bool, true, false, some, Go, ok, err, panic, ◌≡◌, ◌⊎◌, inl, inr,
  refl, arith,
}
use core_go_nopgp.Errors.{Error}
use core_go_nopgp.Auth.Types.{AuthContext, BearerToken, Context}
use core_go_nopgp.Auth.Bearer.{decode_bearer_token}
use core_go_nopgp.Auth.Env.{Env}
use core_go_nopgp.Auth.Lookup.{zero_auth, lookup_user, lookup_token_revocation}
use core_go_nopgp.Auth.Http.{Handling}
use core_go_nopgp.Auth.Oauth2.{Shared, Schedule, oauth2_decide, oauth2_auth}
use core_go_nopgp.Auth.Oauth2.Threads.{
  Pc, running, called, counted, ended, State, live, finished, Thread, lookup, revocation, handler,
  lookup_step, revocation_step, step, Reach,
}
use core_go_nopgp.Auth.Oauth2.Threads.Invariant.{outcome, Answered, Inv, step-Inv, Reach-Inv}

-- The steps that a goroutine has left.
abbrev steps_left : Pc → ℕ
steps_left running = 3
steps_left called = 2
steps_left counted = 1
steps_left ended = 0

abbrev left : State → ℕ
left (live l r s n) = 1 + steps_left l + steps_left r
left (finished h) = 0

-- A goroutine that has not ended has a step.
lookup_moves :
    (user : Go Error AuthContext) (l r : Pc) (s : Shared) (n : ℕ)
    → Answered user l
    → (l ≡ ended) ⊎ ((t : State) × (lookup_step user l r s n ≡ some t))
lookup_moves user ended r s n h = inl refl
lookup_moves user counted r s n h = inr (_, refl)
lookup_moves (ok a) called r s n h = inr (_, refl)
lookup_moves (err e) called r s n h = inr (_, refl)
lookup_moves (panic e) called r s n h = absurd h
lookup_moves (ok a) running r s n h = inr (_, refl)
lookup_moves (err e) running r s n h = inr (_, refl)
lookup_moves (panic e) running r s n h = inr (_, refl)

revocation_moves :
    (revoked : Go Error Bool) (l r : Pc) (s : Shared) (n : ℕ)
    → Answered revoked r
    → (r ≡ ended) ⊎ ((t : State) × (revocation_step revoked l r s n ≡ some t))
revocation_moves revoked l ended s n h = inl refl
revocation_moves revoked l counted s n h = inr (_, refl)
revocation_moves (ok true) l called s n h = inr (_, refl)
revocation_moves (ok false) l called s n h = inr (_, refl)
revocation_moves (err e) l called s n h = inr (_, refl)
revocation_moves (panic e) l called s n h = absurd h
revocation_moves (ok b) l running s n h = inr (_, refl)
revocation_moves (err e) l running s n h = inr (_, refl)
revocation_moves (panic e) l running s n h = inr (_, refl)

lookup_step-left :
    (user : Go Error AuthContext) (l r : Pc) (s : Shared) (n : ℕ) (t : State)
    → lookup_step user l r s n ≡ some t
    → left t < left (live l r s n)
lookup_step-left user l r s n t e = ground arith

revocation_step-left :
    (revoked : Go Error Bool) (l r : Pc) (s : Shared) (n : ℕ) (t : State)
    → revocation_step revoked l r s n ≡ some t
    → left t < left (live l r s n)
revocation_step-left revoked l r s n t e = ground arith

module _ (user : Go Error AuthContext) (revoked : Go Error Bool) (decide : Shared → Handling) where
  -- From here every run ends, whatever thread is chosen at each step: while the handler has not
  -- ended some thread has a step, and in the end it has done what the result of one of the two orders says.
  pub data Terminates (result : Schedule → Handling) : State → Type 0 where
    over :
        (h : Handling) (schedule : Schedule) → h ≡ result schedule → Terminates result (finished h)
    going :
        {s : State} (thread : Thread) (t : State)
        → step user revoked decide thread s ≡ some t
        → ((other : Thread) (u : State)
            → step user revoked decide other s ≡ some u
            → Terminates result u)
        → Terminates result s

  step-left :
      (thread : Thread) (s t : State) → step user revoked decide thread s ≡ some t → left t < left s
  unfolding step
  step-left thread (finished x) t e = cc
  step-left lookup (live l r s n) t e = lookup_step-left user l r s n t e
  step-left revocation (live l r s n) t e = revocation_step-left revoked l r s n t e
  step-left handler (live l r s n) t e = ground arith

  moves :
      (l r : Pc) (s : Shared) (n : ℕ)
      → Inv user revoked decide (live l r s n)
      → (thread : Thread) × (t : State) × (step user revoked decide thread (live l r s n) ≡ some t)
  unfolding step
  moves l r s n (_, _, _, open_threads, known_user, known_revoked) =
      elim (lookup_moves user l r s n known_user) [
        | inr (t, e) ↦ (lookup, t, e)
        | inl l_ended ↦ elim (revocation_moves revoked l r s n known_revoked) [
          | inr (t, e) ↦ (revocation, t, e)
          | inl r_ended ↦ (handler, finished (decide s), rw (open_threads, l_ended, r_ended) refl)
        ]
      ]

  Inv-Terminates :
      (fuel : ℕ) (s : State)
      → left s < fuel
      → Inv user revoked decide s
      → Terminates (outcome user revoked decide) s
  Inv-Terminates zero s h v = absurd (omega (arith, h))
  Inv-Terminates (suc fuel) (finished x) h (schedule, e) = over x schedule e
  Inv-Terminates (suc fuel) (live l r s n) h v =
      let (thread, t, e) = moves l r s n v in
      going thread t e (λ other u f.
        Inv-Terminates fuel u (omega (arith, h, step-left other (live l r s n) u f))
          (step-Inv user revoked decide other (live l r s n) u v f))

  pub Reach-Terminates :
      {s : State} → Reach user revoked decide s → Terminates (outcome user revoked decide) s
  Reach-Terminates {s} r =
      Inv-Terminates (suc (left s)) s (omega arith) (Reach-Inv user revoked decide r)

-- However the handler and the two goroutines of OAuth2 interleave, step by step, from each state
-- that they come to some thread can go on until the handler has ended, each run ends, and in the
-- end the handler has done what OAuth2 does with the goroutines in one of the two orders.
pub oauth2_auth-Terminates :
    (env : Env) (ctx : Context) (token hash : Str) (bt : BearerToken) {s : State}
    → decode_bearer_token env.primitives env.bare env.keys env.now token ≡ some bt
    → Reach
        (lookup_user env ctx bt.username zero_auth)
        (lookup_token_revocation env ctx bt.username hash bt.client_id)
        (oauth2_decide env ctx bt hash)
        s
    → Terminates
        (lookup_user env ctx bt.username zero_auth)
        (lookup_token_revocation env ctx bt.username hash bt.client_id)
        (oauth2_decide env ctx bt hash)
        (λ schedule. oauth2_auth env ctx schedule token hash)
        s
unfolding oauth2_auth
oauth2_auth-Terminates env ctx token hash bt decoded r = rw decoded (
    Reach-Terminates (lookup_user env ctx bt.username zero_auth)
      (lookup_token_revocation env ctx bt.username hash bt.client_id)
      (oauth2_decide env ctx bt hash) r)
