-- ===== src/Base/Int.antt =====
-- Integers over the native numbers, and time.Time.
use Prim.Native.Nat.{ℕ, suc, ◌+◌, ◌-◌, ◌%◌, ◌^◌}
use mathlib.Core.Bool.{Bool, ◌&&◌, ◌||◌}
use core_go_nopgp.Base.Tests.{ltb, leb, ◌==◌, if◌then◌else◌}

-- `negsuc n` is -(n + 1).
pub data ℤ : Type 0 where
  pos : ℕ → ℤ
  negsuc : ℕ → ℤ

abbrev pub pos_part : ℤ → ℕ
pos_part (pos n) = n
pos_part (negsuc n) = 0

abbrev pub neg_part : ℤ → ℕ
neg_part (pos n) = 0
neg_part (negsuc n) = suc n

abbrev pub lt_ℤ : ℤ → ℤ → Bool
lt_ℤ a b = ltb (pos_part a + neg_part b) (pos_part b + neg_part a)

abbrev pub eq_ℤ : ℤ → ℤ → Bool
eq_ℤ a b = (pos_part a + neg_part b) == (pos_part b + neg_part a)

-- A number more, and a number less.
abbrev pub add_ℕ : ℕ → ℤ → ℤ
add_ℕ k (pos n) = pos (n + k)
add_ℕ k (negsuc n) = if leb k n then negsuc (n - k) else pos (k - suc n)

abbrev pub sub_ℕ : ℕ → ℤ → ℤ
sub_ℕ k (pos n) = if leb k n then pos (n - k) else negsuc (k - suc n)
sub_ℕ k (negsuc n) = negsuc (n + k)

-- int64: the remainder mod 2^64, from -2^63 on.
abbrev int64_of_rest : ℕ → ℤ
int64_of_rest r = if ltb r (2 ^ 63) then pos r else negsuc (2 ^ 64 - suc r)

abbrev int64_of_neg_rest : ℕ → ℤ
int64_of_neg_rest r = if ltb r (2 ^ 63) then negsuc r else pos (2 ^ 64 - suc r)

unfoldable pub int64 : ℤ → ℤ
int64 (pos n) = int64_of_rest (n % 2 ^ 64)
int64 (negsuc n) = int64_of_neg_rest (n % 2 ^ 64)

-- The seconds that time.Time counts before 1970, in an int64: those since the year 1.
abbrev pub unix_to_internal : ℕ
unix_to_internal = 62135596800

-- The seconds since 1970 of time.Unix(t, 0), whose count of the seconds since the year 1 wraps.
unfoldable pub unix_seconds : ℤ → ℤ
unfolding int64
unix_seconds t = sub_ℕ unix_to_internal (int64 (add_ℕ unix_to_internal (int64 t)))

-- Seconds since 1970 in UTC, and nanoseconds.
pub record Time : Type 0 where
  pub sec : ℤ
  pub nsec : ℕ

-- t.After(u)
abbrev pub after : Time → Time → Bool
after t u = lt_ℤ u.sec t.sec || (eq_ℤ u.sec t.sec && ltb u.nsec t.nsec)
