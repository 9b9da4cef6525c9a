-- ===== src/Auth/Oauth2/Threads.antt =====
-- The three threads of `OAuth2` of auth/middleware.go, step by step: the goroutine that looks the
-- user up, the one that asks for a revocation, and the handler, which waits for both. The two calls
-- and what the handler decides after the wait are parameters.
pub mod Invariant
pub mod Laws
use core_go_nopgp.Base.{
  ℕ, ◌+◌, ◌-◌, ◌==◌, Bool, true, false, Option, none, some, if◌then◌else◌, Go, ok, err, panic, ◌≡◌,
}
use core_go_nopgp.Errors.{Error}
use core_go_nopgp.Auth.Types.{AuthContext}
use core_go_nopgp.Auth.Lookup.{zero_auth}
use core_go_nopgp.Auth.Http.{Handling, crash}
use core_go_nopgp.Auth.Oauth2.{Shared}

-- Where a goroutine is: before its call, before it adds to a counter, before wg.Done(), or at its
-- end.
pub data Pc : Type 0 where
  running called counted ended : Pc

-- The goroutines, the variables that they share, and the counter of the WaitGroup; or what the
-- handler, or the program that a goroutine's panic ends, has come to.
pub data State : Type 0 where
  live : Pc → Pc → Shared → ℕ → State
  finished : Handling → State

pub data Thread : Type 0 where
  lookup revocation handler : Thread

-- After wg.Add(2).
abbrev pub init : State
init = live running running (record { auth = zero_auth; res = 0; temp_err = 0 }) 2

abbrev pub lookup_step : Go Error AuthContext → Pc → Pc → Shared → ℕ → Option State
lookup_step (ok auth) running r s n = some (live called r (record s { auth = auth }) n)
lookup_step (err e) running r s n = some (live called r s n)
lookup_step (panic e) running r s n = some (finished (crash e))
lookup_step (ok auth) called r s n = some (live counted r (record s { res = s.res + 1 }) n)
lookup_step (err e) called r s n = some (live counted r (record s { temp_err = s.temp_err + 1 }) n)
lookup_step (panic e) called r s n = none
lookup_step user counted r s n = some (live ended r s (n - 1))
lookup_step user ended r s n = none

abbrev pub revocation_step : Go Error Bool → Pc → Pc → Shared → ℕ → Option State
revocation_step (panic e) l running s n = some (finished (crash e))
revocation_step _ l running s n = some (live l called s n)
revocation_step (ok true) l called s n = some (live l counted s n)
revocation_step (ok false) l called s n = some (live l counted (record s { res = s.res + 1 }) n)
revocation_step (err e) l called s n =
    some (live l counted (record s { temp_err = s.temp_err + 1 }) n)
revocation_step (panic e) l called s n = none
revocation_step revoked l counted s n = some (live l ended s (n - 1))
revocation_step revoked l ended s n = none

module _ (user : Go Error AuthContext) (revoked : Go Error Bool) (decide : Shared → Handling) where
  -- A step of a thread, where it has one. The handler goes on when the counter is 0.
  unfoldable pub step : Thread → State → Option State
  step thread (finished h) = none
  step lookup (live l r s n) = lookup_step user l r s n
  step revocation (live l r s n) = revocation_step revoked l r s n
  step handler (live l r s n) = if n == 0 then some (finished (decide s)) else none

  -- The states of a run, in any interleaving.
  pub data Reach : State → Type 0 where
    here : Reach init
    next : {s t : State} (thread : Thread) → Reach s → step thread s ≡ some t → Reach t
