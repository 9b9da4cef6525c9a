-- ===== src/Codec/Base64.antt =====
-- encoding/base64 as the program uses it: here RawStdEncoding (no padding). Decoding
-- skips newlines and does not ask that unused bits be zero, as Go's non-strict decoder.
pub mod Padded
use Prim.Native.Nat.{◌*◌, ◌/◌, ◌%◌}
use mathlib.Core.Path.{ap₂}
use core_go_nopgp.Base.{
  ◌∙◌, ap, ℕ, ◌+◌, ◌-◌, ◌<◌, Str, ltb, leb, ◌==◌, if◌then◌else◌, ◌&&◌, ◌||◌, Bool, true, false,
  Option, none, some, List, [], ◌∷◌, All, ◌≡◌, refl, arith,
}

-- The alphabet A-Z a-z 0-9 + /.
pub symbol : ℕ → ℕ
symbol n =
    if ltb n 26
    then n + 65
    else if ltb n 52
    then n + 71
    else if ltb n 62
    then n - 4
    else if n == 62
    then b'+'
    else b'/'

pub value : ℕ → Option ℕ
value c =
    if leb b'A' c && leb c b'Z'
    then some (c - 65)
    else if leb b'a' c && leb c b'z'
    then some (c - 71)
    else if leb b'0' c && leb c b'9'
    then some (c + 4)
    else if c == b'+'
    then some 62
    else if c == b'/'
    then some 63
    else none

infixl 5 ◌>>=◌
abbrev ◌>>=◌ : {A B : Type 0} → Option A → (A → Option B) → Option B
none >>= f = none
some a >>= f = f a

abbrev is_newline : ℕ → Bool
is_newline c = c == 10 || c == 13

values : Str → Option (List ℕ)
values [] = some []
values (c ∷ s) =
    let rest = values s in if is_newline c then rest else (do v ← value c; vs ← rest; some (v ∷ vs))

bytes : List ℕ → Option Str
bytes [] = some []
bytes (a ∷ []) = none
bytes (a ∷ b ∷ []) = some ((a * 4 + b / 16) ∷ [])
bytes (a ∷ b ∷ c ∷ []) = some ((a * 4 + b / 16) ∷ (b % 16 * 16 + c / 4) ∷ [])
bytes (a ∷ b ∷ c ∷ d ∷ vs) = do
  rest ← bytes vs
  some ((a * 4 + b / 16) ∷ (b % 16 * 16 + c / 4) ∷ (c % 4 * 64 + d) ∷ rest)

-- RawStdEncoding.EncodeToString
unfoldable pub encode_raw : Str → Str
unfolding symbol
encode_raw [] = []
encode_raw (a ∷ []) = symbol (a / 4) ∷ symbol (a % 4 * 16) ∷ []
encode_raw (a ∷ b ∷ []) = symbol (a / 4) ∷ symbol (a % 4 * 16 + b / 16) ∷ symbol (b % 16 * 4) ∷ []
encode_raw (a ∷ b ∷ c ∷ s) =
    symbol (a / 4)
    ∷ symbol (a % 4 * 16 + b / 16)
    ∷ symbol (b % 16 * 4 + c / 64)
    ∷ symbol (c % 64)
    ∷ encode_raw s

-- RawStdEncoding.DecodeString; `none` is the error.
unfoldable pub decode_raw : Str → Option Str
unfolding values value bytes
decode_raw s = do vs ← values s; bytes vs

abbrev pub IsBytes : Str → Type 0
IsBytes s = All (λ c. c < 256) s

value-symbol : (n : ℕ) → n < 64 → value (symbol n) ≡ some n
unfolding value symbol
value-symbol n h = ground arith

symbol_no_newline : (n : ℕ) → is_newline (symbol n) ≡ false
unfolding symbol
symbol_no_newline n = ground arith

values-symbol :
    (n : ℕ) (s : Str) {vs : List ℕ}
    → n < 64
    → values s ≡ some vs
    → values (symbol n ∷ s) ≡ some (n ∷ vs)
unfolding values
values-symbol n s h e = rw (symbol_no_newline n, value-symbol n h, e)

-- The digits of base 64.
sextets : Str → List ℕ
sextets [] = []
sextets (a ∷ []) = (a / 4) ∷ (a % 4 * 16) ∷ []
sextets (a ∷ b ∷ []) = (a / 4) ∷ (a % 4 * 16 + b / 16) ∷ (b % 16 * 4) ∷ []
sextets (a ∷ b ∷ c ∷ s) =
    (a / 4) ∷ (a % 4 * 16 + b / 16) ∷ (b % 16 * 4 + c / 64) ∷ (c % 64) ∷ sextets s

values-encode_raw : (s : Str) → IsBytes s → values (encode_raw s) ≡ some (sextets s)
unfolding encode_raw sextets
values-encode_raw [] h = unfold values in refl
values-encode_raw (a ∷ []) h =
    values-symbol _ _ (omega arith) (values-symbol _ _ (omega arith) (unfold values in refl))
values-encode_raw (a ∷ b ∷ []) h =
    values-symbol _ _ (omega arith)
      (values-symbol _ _ (omega arith) (values-symbol _ _ (omega arith) (unfold values in refl)))
values-encode_raw (a ∷ b ∷ c ∷ s) (p, (q, (r, h))) = values-symbol _ _ (omega arith) (
    values-symbol _ _ (omega arith)
      (values-symbol _ _ (omega arith) (values-symbol _ _ (omega arith) (values-encode_raw s h))))

bytes-sextets : (s : Str) → IsBytes s → bytes (sextets s) ≡ some s
unfolding bytes sextets
bytes-sextets [] h = refl
bytes-sextets (a ∷ []) h = ground arith
bytes-sextets (a ∷ b ∷ []) h = ground arith
bytes-sextets (a ∷ b ∷ c ∷ s) (p, (q, (r, h))) = rw (bytes-sextets s h) (ground arith)

-- Decoding gives back what was encoded.
pub decode_raw-encode_raw : (s : Str) → IsBytes s → decode_raw (encode_raw s) ≡ some s
unfolding decode_raw
decode_raw-encode_raw s h = rw (values-encode_raw s h) (bytes-sextets s h)
