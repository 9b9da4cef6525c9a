-- ===== src/Auth/Bearer.antt =====
-- `BearerToken` of auth/bearer.go: encoding and decoding. The BARE format is go-bare's, and is a
-- parameter; what is logged is left out.
pub mod Laws
use core_go_nopgp.Base.{
  ℕ, ℤ, pos, Str, length, ◌==◌, leb, ◌-◌, ◌++◌, take, drop, Bool, true, false, not, Option, none,
  some, if◌then◌else◌, Go, ok, ◌>>=◌, must, Time, after, int64, unix_seconds,
}
use core_go_nopgp.Codec.Base64.{encode_raw, decode_raw}
use core_go_nopgp.Crypto.{Primitives, Keys, bearer_hmac, bearer_verify}
use core_go_nopgp.Errors.{Error, token_not_marshalled}
use core_go_nopgp.Auth.Types.{BearerToken}

-- `TokenVersion`
abbrev pub token_version : ℕ
token_version = 0

-- `(t Timestamp) Time`
unfoldable pub timestamp_time : ℤ → Time
unfolding unix_seconds
timestamp_time t = record { sec = unix_seconds t; nsec = 0 }

-- `ToTimestamp`
unfoldable pub to_timestamp : Time → ℤ
unfolding int64
to_timestamp t = int64 t.sec

-- bare.Marshal and bare.Unmarshal at the type BearerToken.
pub record Bare : Type 0 where
  pub marshal : BearerToken → Option Str
  pub unmarshal : Str → Option BearerToken

module _ (p : Primitives) (bare : Bare) (keys : Keys) where
  -- `(bt *BearerToken) Encode`
  unfoldable pub encode_bearer : BearerToken → Go Error Str
  encode_bearer bt = do
    plain ← must token_not_marshalled (bare.marshal bt)
    ok (encode_raw (plain ++ bearer_hmac p keys plain))

  -- The checks of the token's own fields.
  unfoldable pub check_token : Time → Option BearerToken → Option BearerToken
  check_token now none = none
  check_token now (some bt) =
      if not (bt.version == token_version)
      then none
      else if after now (timestamp_time bt.expires)
      then none
      else some bt

  unfoldable pub check_payload : Time → Option Str → Option BearerToken
  unfolding check_token
  check_payload now none = none
  check_payload now (some payload) =
      if leb (length payload) 32
      then none
      else let mac = drop (length payload - 32) payload in
        let plain = take (length payload - 32) payload in
        if not (bearer_verify p keys plain mac)
        then none
        else check_token now (bare.unmarshal plain)

  -- `DecodeBearerToken`, at the time `now`.
  unfoldable pub decode_bearer_token : Time → Str → Option BearerToken
  unfolding check_payload
  decode_bearer_token now token = check_payload now (decode_raw token)
