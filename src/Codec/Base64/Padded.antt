-- ===== src/Codec/Base64/Padded.antt =====
-- encoding/base64 as the program uses it: StdEncoding, which pads.
use Prim.Native.Nat.{◌*◌, ◌/◌, ◌%◌}
use mathlib.Core.Path.{ap₂}
use core_go_nopgp.Base.{
  ◌∙◌, ap, ℕ, ◌+◌, ◌<◌, Str, ◌==◌, if◌then◌else◌, ◌&&◌, Bool, true, false, Option, none, some, List,
  [], ◌∷◌, ◌≡◌, refl, arith,
}
use core_go_nopgp.Codec.Base64.{
  ◌>>=◌, bytes, symbol, value, is_newline, IsBytes, value-symbol, symbol_no_newline,
}

abbrev is_empty : List ℕ → Bool
is_empty [] = true
is_empty (c ∷ s) = false

-- A group of four symbols; only the last may be padded.
quad : (a b c d : ℕ) → Bool → Option Str → Option Str
quad a b c d last rest =
    if c == b'='
    then (if d == b'=' && last then (do v ← value a; w ← value b; bytes (v ∷ w ∷ [])) else none)
    else if d == b'='
    then (if last then (do v ← value a; w ← value b; x ← value c; bytes (v ∷ w ∷ x ∷ [])) else none)
    else do
      v ← value a
      w ← value b
      x ← value c
      y ← value d
      r ← rest
      some ((v * 4 + w / 16) ∷ (w % 16 * 16 + x / 4) ∷ (x % 4 * 64 + y) ∷ r)

quads : Str → Option Str
quads [] = some []
quads (a ∷ b ∷ c ∷ d ∷ s) = quad a b c d (is_empty s) (quads s)
quads _ = none

strip : Str → Str
strip [] = []
strip (c ∷ s) = let rest = strip s in if is_newline c then rest else c ∷ rest

-- StdEncoding.EncodeToString
unfoldable pub encode_std : Str → Str
unfolding symbol
encode_std [] = []
encode_std (a ∷ []) = symbol (a / 4) ∷ symbol (a % 4 * 16) ∷ b'=' ∷ b'=' ∷ []
encode_std (a ∷ b ∷ []) =
    symbol (a / 4) ∷ symbol (a % 4 * 16 + b / 16) ∷ symbol (b % 16 * 4) ∷ b'=' ∷ []
encode_std (a ∷ b ∷ c ∷ s) =
    symbol (a / 4)
    ∷ symbol (a % 4 * 16 + b / 16)
    ∷ symbol (b % 16 * 4 + c / 64)
    ∷ symbol (c % 64)
    ∷ encode_std s

-- StdEncoding.DecodeString; `none` is the error.
unfoldable pub decode_std : Str → Option Str
unfolding strip quads quad value bytes
decode_std s = quads (strip s)

symbol_no_padding : (n : ℕ) → (symbol n == b'=') ≡ false
unfolding symbol
symbol_no_padding n = ground arith

strip-symbol : (n : ℕ) (s : Str) → strip (symbol n ∷ s) ≡ symbol n ∷ strip s
unfolding strip
strip-symbol n s = rw (symbol_no_newline n)

quad_encode_std :
    (a b c : ℕ) (s : Str)
    → encode_std (a ∷ b ∷ c ∷ s)
      ≡ symbol (a / 4)
        ∷ symbol (a % 4 * 16 + b / 16)
        ∷ symbol (b % 16 * 4 + c / 64)
        ∷ symbol (c % 64)
        ∷ encode_std s
unfolding encode_std
quad_encode_std a b c s = refl

one_encode_std :
    (a : ℕ) → encode_std (a ∷ []) ≡ symbol (a / 4) ∷ symbol (a % 4 * 16) ∷ b'=' ∷ b'=' ∷ []
unfolding encode_std
one_encode_std a = refl

two_encode_std :
    (a b : ℕ)
    → encode_std (a ∷ b ∷ [])
      ≡ symbol (a / 4) ∷ symbol (a % 4 * 16 + b / 16) ∷ symbol (b % 16 * 4) ∷ b'=' ∷ []
unfolding encode_std
two_encode_std a b = refl

strip-encode_std : (s : Str) → strip (encode_std s) ≡ encode_std s
strip-encode_std [] = unfold strip encode_std in refl
strip-encode_std (a ∷ []) = rw one_encode_std (simp strip-symbol (unfold strip in refl))
strip-encode_std (a ∷ b ∷ []) = rw two_encode_std (simp strip-symbol (unfold strip in refl))
strip-encode_std (a ∷ b ∷ c ∷ s) = simp (quad_encode_std, strip-symbol, strip-encode_std s)

module _ (v w : ℕ) (p : v < 64) (q : w < 64) where
  quads-symbols_one : quads (symbol v ∷ symbol w ∷ b'=' ∷ b'=' ∷ []) ≡ some ((v * 4 + w / 16) ∷ [])
  unfolding quads quad bytes
  quads-symbols_one = rw (value-symbol v p, value-symbol w q)

  module _ (x : ℕ) (r : x < 64) where
    quads-symbols_two :
        quads (symbol v ∷ symbol w ∷ symbol x ∷ b'=' ∷ [])
        ≡ some ((v * 4 + w / 16) ∷ (w % 16 * 16 + x / 4) ∷ [])
    unfolding quads quad bytes
    quads-symbols_two =
        rw (symbol_no_padding x, value-symbol v p, value-symbol w q, value-symbol x r)

    quads-symbols :
        (y : ℕ) (s : Str) {t : Str}
        → y < 64
        → quads s ≡ some t
        → quads (symbol v ∷ symbol w ∷ symbol x ∷ symbol y ∷ s)
          ≡ some ((v * 4 + w / 16) ∷ (w % 16 * 16 + x / 4) ∷ (x % 4 * 64 + y) ∷ t)
    unfolding quads quad
    quads-symbols y s u e = rw (
      symbol_no_padding x,
      symbol_no_padding y,
      value-symbol v p,
      value-symbol w q,
      value-symbol x r,
      value-symbol y u,
      e,
    )

cons₃ :
    {a b c a' b' c' : ℕ} (s : Str)
    → a ≡ a'
    → b ≡ b'
    → c ≡ c'
    → some (a ∷ b ∷ c ∷ s) ≡ some (a' ∷ b' ∷ c' ∷ s)
cons₃ s p q r = cc

quads-encode_std : (s : Str) → IsBytes s → quads (encode_std s) ≡ some s
quads-encode_std [] h = unfold quads encode_std in refl
quads-encode_std (a ∷ []) (p, _) =
    unfold encode_std in
    quads-symbols_one (a / 4) (a % 4 * 16) (omega arith) (omega arith)
    ∙ ap (λ c. some (c ∷ [])) (omega arith)
quads-encode_std (a ∷ b ∷ []) (p, (q, _)) =
    unfold encode_std in
    quads-symbols_two (a / 4) (a % 4 * 16 + b / 16) (omega arith) (omega arith) (b % 16 * 4)
      (omega arith)
    ∙ ap₂ (λ c d. some (c ∷ d ∷ [])) (omega arith) (omega arith)
quads-encode_std (a ∷ b ∷ c ∷ s) (p, (q, (r, h))) =
    ap quads (quad_encode_std a b c s)
    ∙ quads-symbols (a / 4) (a % 4 * 16 + b / 16) (omega arith) (omega arith) (b % 16 * 4 + c / 64)
        (omega arith) (c % 64) (encode_std s) (omega arith) (quads-encode_std s h)
    ∙ cons₃ s (omega arith) (omega arith) (omega arith)

-- Decoding gives back what was encoded, with padding.
pub decode_std-encode_std : (s : Str) → IsBytes s → decode_std (encode_std s) ≡ some s
unfolding decode_std
decode_std-encode_std s h = rw (strip-encode_std s) (quads-encode_std s h)
