-- ===== src/Auth/Oauth2/Threads/Invariant.antt =====
-- What holds at each step of the threads of OAuth2, in any interleaving.
use core_go_nopgp.Base.{
  ℕ, ◌+◌, Bool, true, false, Option, none, some, Go, ok, err, panic, ◌≡◌, refl, ap, subst, arith,
}
use core_go_nopgp.Errors.{Error}
use core_go_nopgp.Auth.Types.{AuthContext}
use core_go_nopgp.Auth.Lookup.{zero_auth}
use core_go_nopgp.Auth.Http.{Handling, crash, handle}
use core_go_nopgp.Auth.Oauth2.{Shared, Schedule, lookup_first, revocation_first, run_both}
use core_go_nopgp.Auth.Oauth2.Threads.{
  Pc, running, called, counted, ended, State, live, finished, Thread, lookup, revocation, handler,
  lookup_step, revocation_step, step, Reach, here, next,
}

-- What the goroutines have done to the shared variables where they are.
abbrev auth_at : Go Error AuthContext → Pc → AuthContext
auth_at user running = zero_auth
auth_at (ok auth) _ = auth
auth_at _ _ = zero_auth

abbrev found_at : Go Error AuthContext → Pc → ℕ
found_at user running = 0
found_at user called = 0
found_at (ok auth) counted = 1
found_at (ok auth) ended = 1
found_at _ _ = 0

abbrev kept_at : Go Error Bool → Pc → ℕ
kept_at revoked running = 0
kept_at revoked called = 0
kept_at (ok false) counted = 1
kept_at (ok false) ended = 1
kept_at _ _ = 0

abbrev failed_at : {A : Type 0} → Go Error A → Pc → ℕ
failed_at x running = 0
failed_at x called = 0
failed_at (err e) counted = 1
failed_at (err e) ended = 1
failed_at _ _ = 0

abbrev open_at : Pc → ℕ
open_at ended = 0
open_at _ = 1

-- A goroutine that is past its call has not panicked.
abbrev pub Answered : {A : Type 0} → Go Error A → Pc → Type 0
Answered x running = Unit
Answered (panic e) _ = ⊥
Answered x _ = Unit

abbrev start : Shared
start = record { auth = zero_auth; res = 0; temp_err = 0 }

module _ (user : Go Error AuthContext) (revoked : Go Error Bool) (decide : Shared → Handling) where
  -- What the two goroutines one after the other, and the handler after them, come to.
  abbrev pub outcome : Schedule → Handling
  outcome schedule = handle (run_both schedule user revoked start) crash decide

  abbrev pub Inv : State → Type 0
  Inv (live l r s n) =
      (s.auth ≡ auth_at user l)
      × (s.res ≡ found_at user l + kept_at revoked r)
      × (s.temp_err ≡ failed_at user l + failed_at revoked r)
      × (n ≡ open_at l + open_at r)
      × Answered user l
      × Answered revoked r
  Inv (finished h) = (schedule : Schedule) × (h ≡ outcome schedule)

abbrev After : Go Error AuthContext → Go Error Bool → (Shared → Handling) → Option State → Type 0
After user revoked decide none = Unit
After user revoked decide (some t) = Inv user revoked decide t

module _ (decide : Shared → Handling) (s : Shared) (n : ℕ) where
  lookup_step-Inv :
      (user : Go Error AuthContext) (revoked : Go Error Bool) (l r : Pc)
      → Inv user revoked decide (live l r s n)
      → After user revoked decide (lookup_step user l r s n)
  lookup_step-Inv (panic e) revoked running r h = (lookup_first, refl)
  lookup_step-Inv (ok auth) revoked l r h = ground arith
  lookup_step-Inv (err e) revoked l r h = ground arith
  lookup_step-Inv (panic e) revoked l r h = ground arith

  revocation_step-Inv :
      (user : Go Error AuthContext) (revoked : Go Error Bool) (l r : Pc)
      → Inv user revoked decide (live l r s n)
      → After user revoked decide (revocation_step revoked l r s n)
  revocation_step-Inv user (panic e) l running h = (revocation_first, refl)
  revocation_step-Inv user (ok b) l r h = ground arith
  revocation_step-Inv user (err e) l r h = ground arith
  revocation_step-Inv user (panic e) l r h = ground arith

-- Where both have ended, the handler finds the variables as one after the other leaves them.
both_ended :
    (user : Go Error AuthContext) (revoked : Go Error Bool) (decide : Shared → Handling)
    (s : Shared) (n : ℕ)
    → Inv user revoked decide (live ended ended s n)
    → decide s ≡ outcome user revoked decide lookup_first
both_ended (ok a) (ok true) decide s n (auth, res, temp_err, _, _, _) = ap decide cc
both_ended (ok a) (ok false) decide s n (auth, res, temp_err, _, _, _) = ap decide cc
both_ended (ok a) (err f) decide s n (auth, res, temp_err, _, _, _) = ap decide cc
both_ended (err e) (ok true) decide s n (auth, res, temp_err, _, _, _) = ap decide cc
both_ended (err e) (ok false) decide s n (auth, res, temp_err, _, _, _) = ap decide cc
both_ended (err e) (err f) decide s n (auth, res, temp_err, _, _, _) = ap decide cc
both_ended user (panic e) decide s n (_, _, _, _, _, panicked) = absurd panicked
both_ended (panic e) revoked decide s n (_, _, _, _, panicked, _) = absurd panicked

module _ (user : Go Error AuthContext) (revoked : Go Error Bool) (decide : Shared → Handling) where
  handler_step-Inv :
      (l r : Pc) (s : Shared) (n : ℕ)
      → Inv user revoked decide (live l r s n)
      → After user revoked decide (step user revoked decide handler (live l r s n))
  unfolding step
  handler_step-Inv ended ended s n (auth, res, temp_err, open_threads, known_user, known_revoked) =
      rw open_threads (
        lookup_first,
        both_ended user revoked decide s 0 (auth, res, temp_err, refl, known_user, known_revoked),
      )
  handler_step-Inv l r s n h = ground arith

  pub step-Inv :
      (thread : Thread) (s t : State)
      → Inv user revoked decide s
      → step user revoked decide thread s ≡ some t
      → Inv user revoked decide t
  unfolding step
  step-Inv thread (finished x) t h e = cc
  step-Inv lookup (live l r s n) t h e =
      subst (After user revoked decide) e (lookup_step-Inv decide s n user revoked l r h)
  step-Inv revocation (live l r s n) t h e =
      subst (After user revoked decide) e (revocation_step-Inv decide s n user revoked l r h)
  step-Inv handler (live l r s n) t h e =
      subst (After user revoked decide) e (handler_step-Inv l r s n h)

  pub Reach-Inv : {s : State} → Reach user revoked decide s → Inv user revoked decide s
  Reach-Inv here = (refl, refl, refl, refl, tt, tt)
  Reach-Inv (next thread r e) = step-Inv thread _ _ (Reach-Inv r) e
