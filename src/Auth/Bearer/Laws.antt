-- ===== src/Auth/Bearer/Laws.antt =====
-- Which strings are bearer tokens.
use core_go_nopgp.Base.{
  ℕ, pos, ◌%◌, ◌^◌, ltb, true, unix_to_internal, unix_seconds, int64, [], ◌∷◌, ==_iff, ◌+◌, ◌-◌,
  ◌<◌, Str, length, length-append, take-append, drop-append, take-append-drop, ◌++◌, take, drop,
  false, Option, none, some, if◌then◌else◌, ok, ◌≡◌, ◌↔◌, refl, sym, ◌∙◌, ap, arith, Time, after,
  Bool-cases, Option-cases, inl, inr, leb, ◌==◌,
}
use core_go_nopgp.Codec.Base64.{encode_raw, decode_raw, IsBytes, decode_raw-encode_raw}
use core_go_nopgp.Crypto.{Primitives, Keys, bearer_hmac, bearer_verify}
use core_go_nopgp.Crypto.Laws.{Documented, bearer_verify_iff}
use core_go_nopgp.Auth.Types.{BearerToken}
use core_go_nopgp.Auth.Bearer.{
  Bare, token_version, timestamp_time, encode_bearer, check_token, check_payload,
  decode_bearer_token,
}

IsBytes-append : (s t : Str) → IsBytes s → IsBytes t → IsBytes (s ++ t)
IsBytes-append [] t h k = k
IsBytes-append (c ∷ s) t (h, hs) k = (h, IsBytes-append s t hs k)

module _ (p : Primitives) (documented : Documented p) (bare : Bare) (keys : Keys) where
  -- A text that was issued with the keys for a token that is of this version and has not expired.
  pub record IsIssued (now : Time) (token : Str) (bt : BearerToken) : Type 0 where
    pub plain : Str
    pub not_empty : 0 < length plain
    pub decoded : decode_raw token ≡ some (plain ++ bearer_hmac p keys plain)
    pub unmarshalled : bare.unmarshal plain ≡ some bt
    pub version : bt.version ≡ token_version
    pub current : after now (timestamp_time bt.expires) ≡ false

  check_token-eq-some :
      (now : Time) (o : Option BearerToken) (bt : BearerToken)
      → check_token p bare keys now o ≡ some bt
      → (o ≡ some bt)
        × (bt.version ≡ token_version)
        × (after now (timestamp_time bt.expires) ≡ false)
  unfolding check_token
  check_token-eq-some now none bt h = cc
  check_token-eq-some now (some t) bt h = elim (Bool-cases (t.version == token_version)) [
    | inr other ↦ cc (rw other at h)
    | inl same ↦ elim (Bool-cases (after now (timestamp_time t.expires))) [
      | inl late ↦ cc (rw (same, late) at h)
      | inr current ↦
          let e : some t ≡ some bt = rw (same, current) at h in
          let e' : t ≡ bt = cc e in (e, rw (← e') ((==_iff _ _).0 same), rw (← e') current)
    ]
  ]

  mac_length : (plain : Str) → length (bearer_hmac p keys plain) ≡ 32
  unfolding bearer_hmac
  mac_length plain = documented.mac_length keys.bearer_key plain

  mac_IsBytes : (plain : Str) → IsBytes (bearer_hmac p keys plain)
  unfolding bearer_hmac
  mac_IsBytes plain = documented.mac_IsBytes keys.bearer_key plain

  issued_length : (plain : Str) → length (plain ++ bearer_hmac p keys plain) ≡ length plain + 32
  issued_length plain =
      omega (arith, length-append {0} plain (bearer_hmac p keys plain), mac_length plain)

  check_payload_of_issued :
      (now : Time) (plain : Str)
      → 0 < length plain
      → check_payload p bare keys now (some (plain ++ bearer_hmac p keys plain))
        ≡ check_token p bare keys now (bare.unmarshal plain)
  unfolding check_payload
  check_payload_of_issued now plain h =
      let long : leb (length plain + 32) 32 ≡ false = ground arith in
      let start : length plain + 32 - 32 ≡ length plain = omega arith in
      rw (
        issued_length plain,
        long,
        start,
        take-append,
        drop-append,
        (bearer_verify_iff p documented keys plain (bearer_hmac p keys plain)).1 refl,
      )

  -- The two parts of a payload that passed.
  check_payload-eq-some :
      (now : Time) (payload : Str) (bt : BearerToken)
      → check_payload p bare keys now (some payload) ≡ some bt
      → (plain : Str) × (payload ≡ plain ++ bearer_hmac p keys plain)
        × (32 < length payload)
        × (check_token p bare keys now (bare.unmarshal plain) ≡ some bt)
  unfolding check_payload
  check_payload-eq-some now payload bt h =
      let plain = take (length payload - 32) payload in
      let mac = drop (length payload - 32) payload in
      elim (Bool-cases (leb (length payload) 32)) [
        | inl short ↦ cc (rw short at h)
        | inr long ↦ elim (Bool-cases (bearer_verify p keys plain mac)) [
          | inr forged ↦ cc (rw (long, forged) at h)
          | inl genuine ↦
              let signed = (bearer_verify_iff p documented keys plain mac).0 genuine in
              (
                plain,
                sym (take-append-drop (length payload - 32) payload) ∙ ap (λ m. plain ++ m) signed,
                ground arith,
                rw (long, genuine) at h,
              )
        ]
      ]

  IsIssued-decode_bearer_token :
      (now : Time) (token : Str) (bt : BearerToken)
      → decode_bearer_token p bare keys now token ≡ some bt
      → IsIssued now token bt
  unfolding decode_bearer_token
  IsIssued-decode_bearer_token now token bt h = elim (Option-cases (decode_raw token)) [
    | inl e ↦ cc (rw e at h)
    | inr (payload, e) ↦
        let (plain, parts, long, checked) = check_payload-eq-some now payload bt (rw e at h) in
        let (unmarshalled, version, current) =
          check_token-eq-some now (bare.unmarshal plain) bt checked in
        record {
          plain = plain;
          not_empty = omega (arith, issued_length plain, ap length parts);
          decoded = e ∙ ap some parts;
          unmarshalled = unmarshalled;
          version = version;
          current = current;
        }
  ]

  decode_bearer_token_of_issued :
      (now : Time) (token : Str) (bt : BearerToken)
      → IsIssued now token bt
      → decode_bearer_token p bare keys now token ≡ some bt
  unfolding decode_bearer_token
  decode_bearer_token_of_issued now token bt i =
      rw (i.decoded, check_payload_of_issued now i.plain i.not_empty, i.unmarshalled)
        (unfold check_token in rw (i.version, i.current))

  -- DecodeBearerToken gives a token exactly where the text is, in base64, a payload that is not
  -- empty followed by its MAC, and the payload is the token, of version 0 and not expired by the
  -- time that time.Unix gives of its timestamp, whose seconds wrap beyond an int64. The condition is that the ciphers are as documented (`Documented`), MACs of 32 bytes among it.
  pub decode_bearer_token-some_iff :
      (now : Time) (token : Str) (bt : BearerToken)
      → (decode_bearer_token p bare keys now token ≡ some bt) ↔ IsIssued now token bt
  decode_bearer_token-some_iff now token bt =
      (IsIssued-decode_bearer_token now token bt, decode_bearer_token_of_issued now token bt)

  -- A token of version 0 that BARE encodes in bytes, not none of them, and decodes again is
  -- encoded to a text that decodes to the token until the time that time.Unix gives of its
  -- timestamp, whose seconds wrap beyond an int64, and to nothing later. The condition is that the ciphers are as documented (`Documented`), MACs of 32 bytes among it.
  pub decode_bearer_token-encode_bearer :
      (bt : BearerToken) (plain : Str)
      → bare.marshal bt ≡ some plain
      → bare.unmarshal plain ≡ some bt
      → 0 < length plain
      → IsBytes plain
      → bt.version ≡ token_version
      → (token : Str) × (encode_bearer p bare keys bt ≡ ok token)
        × ((now : Time)
            → decode_bearer_token p bare keys now token
              ≡ (if after now (timestamp_time bt.expires) then none else some bt))
  unfolding encode_bearer decode_bearer_token check_token
  decode_bearer_token-encode_bearer bt plain m u l b v = (
    encode_raw (plain ++ bearer_hmac p keys plain),
    rw m,
    λ now. rw (
      decode_raw-encode_raw (plain ++ bearer_hmac p keys plain)
          (IsBytes-append plain _ b (mac_IsBytes plain)),
      check_payload_of_issued now plain l,
      u,
      v,
    ),
  )

-- A timestamp that time.Time can hold is its own time.
pub timestamp_time_of_fitting :
    (n : ℕ)
    → n + unix_to_internal < 2 ^ 63
    → timestamp_time (pos n) ≡ record { sec = pos n; nsec = 0 }
unfolding timestamp_time unix_seconds int64
timestamp_time_of_fitting n fits =
    let small : n % 2 ^ 64 ≡ n = omega arith in
    let shifted : (n + unix_to_internal) % 2 ^ 64 ≡ n + unix_to_internal = omega arith in
    let back : n + unix_to_internal - unix_to_internal ≡ n = omega arith in
    let in_range : ltb n (2 ^ 63) ≡ true = ground arith in
    let in_range' : ltb (n + unix_to_internal) (2 ^ 63) ≡ true = ground arith in
    let at_least : leb unix_to_internal (n + unix_to_internal) ≡ true = ground arith in
    rw (small, in_range) (rw (shifted, in_range', at_least, back) refl)
