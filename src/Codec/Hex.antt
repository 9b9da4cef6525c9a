-- ===== src/Codec/Hex.antt =====
-- encoding/hex: EncodeToString writes lower case; DecodeString reads both cases.
use Prim.Native.Nat.{◌*◌, ◌/◌, ◌%◌}
use core_go_nopgp.Base.{
  ℕ, ◌+◌, ◌-◌, ◌<◌, Str, ltb, leb, if◌then◌else◌, ◌&&◌, Option, none, some, [], ◌∷◌, All, ◌≡◌, refl,
  arith, ◌∙◌, ap,
}

pub digit : ℕ → ℕ
digit n = if ltb n 10 then n + 48 else n + 87

pub digit_value : ℕ → Option ℕ
digit_value c =
    if leb b'0' c && leb c b'9'
    then some (c - 48)
    else if leb b'a' c && leb c b'f'
    then some (c - 87)
    else if leb b'A' c && leb c b'F'
    then some (c - 55)
    else none

infixl 5 ◌>>=◌
abbrev ◌>>=◌ : {A B : Type 0} → Option A → (A → Option B) → Option B
none >>= f = none
some a >>= f = f a

-- hex.EncodeToString
unfoldable pub encode : Str → Str
unfolding digit
encode [] = []
encode (b ∷ s) = digit (b / 16) ∷ digit (b % 16) ∷ encode s

-- hex.DecodeString; `none` is the error.
unfoldable pub decode : Str → Option Str
unfolding digit_value
decode [] = some []
decode (c ∷ []) = none
decode (c ∷ d ∷ s) = do
  high ← digit_value c
  low ← digit_value d
  rest ← decode s
  some ((high * 16 + low) ∷ rest)

digit_value-digit : (n : ℕ) → n < 16 → digit_value (digit n) ≡ some n
unfolding digit_value digit
digit_value-digit n h = ground arith

decode-digits :
    (high low : ℕ) (s : Str) {r : Str}
    → high < 16
    → low < 16
    → decode s ≡ some r
    → decode (digit high ∷ digit low ∷ s) ≡ some ((high * 16 + low) ∷ r)
unfolding decode
decode-digits high low s p q e = rw (digit_value-digit high p, digit_value-digit low q, e)

-- Decoding gives back the bytes that were encoded.
pub decode-encode : (s : Str) → All (λ c. c < 256) s → decode (encode s) ≡ some s
unfolding encode
decode-encode [] h = unfold decode in refl
decode-encode (b ∷ s) (p, h) =
    decode-digits (b / 16) (b % 16) (encode s) (omega arith) (omega arith) (decode-encode s h)
    ∙ ap (λ c. some (c ∷ s)) (omega arith)
