-- ===== src/Base/Text.antt =====
-- Go strings and byte slices: lists of bytes, and the functions of package strings that the
-- program calls with a separator of one byte.
use Prim.Native.Nat.{ℕ, ◌+◌}
use Prim.Native.Char.{code}
use Prim.Native.String.{String}
use mathlib.Core.Path.{◌≡◌, refl}
use mathlib.Core.Logic.{◌↔◌, ◌≢◌}
use mathlib.Core.Bool.{Bool, true, false, ◌&&◌}
use mathlib.Core.Option.{Option, none, some}
use mathlib.Core.List.{List, [], ◌∷◌, ◌++◌}
use native.Mathlib.Omega.{arith}
use core_go_nopgp.Base.Tests.{◌==◌, leb, ltb, if◌then◌else◌, All, all}

abbrev pub Str : Type 0
Str = List ℕ

-- The bytes of a literal, which is ASCII wherever it is used.
abbrev pub codes : String → Str
codes String.[] = []
codes (String.◌∷◌ c s) = code c ∷ codes s

unfoldable pub str_eq : Str → Str → Bool
str_eq [] [] = true
str_eq [] (b ∷ t) = false
str_eq (a ∷ s) [] = false
str_eq (a ∷ s) (b ∷ t) = (a == b) && str_eq s t

pub str_eq_iff : (s t : Str) → (str_eq s t ≡ true) ↔ (s ≡ t)
unfolding str_eq
str_eq_iff [] [] = ground arith
str_eq_iff [] (b ∷ t) = ground arith
str_eq_iff (a ∷ s) [] = ground arith
str_eq_iff (a ∷ s) (b ∷ t) = ground (arith, str_eq_iff s t)

pub str_eq_refl : (s : Str) → str_eq s s ≡ true
str_eq_refl s = (str_eq_iff s s).1 refl

pub str_eq_ne : (s t : Str) → s ≢ t → str_eq s t ≡ false
str_eq_ne s t h = ground (arith, str_eq_iff s t)

abbrev push_front : ℕ → List Str → List Str
push_front c [] = (c ∷ []) ∷ []
push_front c (w ∷ ws) = (c ∷ w) ∷ ws

-- strings.Split(s, sep): the empty string has one part, which is empty.
unfoldable pub split : ℕ → Str → List Str
split sep [] = [] ∷ []
split sep (c ∷ s) = let rest = split sep s in if c == sep then [] ∷ rest else push_front c rest

-- strings.SplitN(s, sep, 2): `none` where the separator is missing, so that there is one part.
abbrev keep_front : ℕ → Option (Str × Str) → Option (Str × Str)
keep_front c none = none
keep_front c (some (a, b)) = some (c ∷ a, b)

unfoldable pub split_two : ℕ → Str → Option (Str × Str)
split_two sep [] = none
split_two sep (c ∷ s) =
    let rest = split_two sep s in if c == sep then some ([], s) else keep_front c rest

-- strings.HasPrefix(s, p), with the prefix first.
unfoldable pub has_prefix : Str → Str → Bool
has_prefix [] s = true
has_prefix (p ∷ ps) [] = false
has_prefix (p ∷ ps) (c ∷ s) = (p == c) && has_prefix ps s

-- strings.ToLower on ASCII bytes.
unfoldable pub lower : ℕ → ℕ
lower c = if leb b'A' c && leb c b'Z' then c + 32 else c

unfoldable pub is_ascii : Str → Bool
is_ascii s = all (λ c. ltb c 128) s

-- No byte of the text is the separator.
abbrev pub Free : ℕ → Str → Type 0
Free sep s = All (λ c. c ≢ sep) s

module _ (sep : ℕ) where
  -- A text without the separator is one part.
  pub split_of_Free : (s : Str) → Free sep s → split sep s ≡ s ∷ []
  unfolding split
  split_of_Free [] h = refl
  split_of_Free (c ∷ s) (n, h) = ground (arith, split_of_Free s h)

  -- A text up to its first separator is the first part.
  pub split-append : (s t : Str) → Free sep s → split sep (s ++ (sep ∷ t)) ≡ s ∷ split sep t
  unfolding split
  split-append [] t h = ground arith
  split-append (c ∷ s) t (n, h) = ground (arith, split-append s t h)
