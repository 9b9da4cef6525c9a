-- ===== src/Tests/Tokens.antt =====
-- Tokens, grants and signatures at concrete inputs.
use core_go_nopgp.Base.{
  ℕ, zero, suc, pos, negsuc, ◌-◌, ◌^◌, Str, codes, str_eq, split, after, none, some, [], ◌∷◌, ◌++◌,
  true, false, All, Time, ok, if◌then◌else◌, ◌≡◌, ◌↔◌, ◌⊎◌, refl, sym, arith,
}
use core_go_nopgp.Codec.Base64.{encode_raw, IsBytes}
use core_go_nopgp.Codec.Base64.Padded.{encode_std, decode_std-encode_std}
use core_go_nopgp.Config.{IniFile, service_name}
use core_go_nopgp.Crypto.{init_crypto, sign_webhook, verify_webhook}
use core_go_nopgp.Crypto.Laws.{Documented, verify_webhook-sign_webhook}
use core_go_nopgp.Auth.Types.{Grants, rw_mode}
use core_go_nopgp.Auth.Bearer.{timestamp_time, encode_bearer, decode_bearer_token}
use core_go_nopgp.Auth.Bearer.Laws.{
  IsIssued, decode_bearer_token-some_iff, decode_bearer_token-encode_bearer,
}
use core_go_nopgp.Auth.Grants.{decode_grants, has}
use core_go_nopgp.Auth.Grants.Access.{IsPermitted, has-true_iff, IsGrant, decode_grants-ok_iff}
use core_go_nopgp.Auth.Grants.RoundTrip.{
  Grant, IsPlain, print_grant, print_access, Decodes, decode_grants-print,
}
use core_go_nopgp.Tests.World.{
  lacks-Free, zeros, toy_primitives, toy_keys, toy_bare, alice_token, at, toy_context,
}

pub IsBytes-zeros : (n : ℕ) → IsBytes (zeros n)
IsBytes-zeros zero = tt
IsBytes-zeros (suc n) = (omega arith, IsBytes-zeros n)

pub toy_documented : Documented toy_primitives
unfolding str_eq
toy_documented = record {
  verify_sign = λ seed message. refl;
  signature_IsBytes = λ key message. (omega arith, (omega arith, tt));
  mac_IsBytes = λ key message. IsBytes-zeros 32;
  mac_length = λ key message. refl;
  decrypt_encrypt = λ key message token h. sym h;
}

abbrev pub issued : Str
issued = encode_raw (codes "token" ++ zeros 32)

decode_bearer_token-some_iff_example :
    (decode_bearer_token toy_primitives toy_bare toy_keys (at 1000) issued ≡ some alice_token)
    ↔ IsIssued toy_primitives toy_documented toy_bare toy_keys (at 1000) issued alice_token
decode_bearer_token-some_iff_example =
    decode_bearer_token-some_iff toy_primitives toy_documented toy_bare toy_keys (at 1000) issued
      alice_token

decode_bearer_token-encode_bearer_example :
    (token : Str) × (encode_bearer toy_primitives toy_bare toy_keys alice_token ≡ ok token)
    × ((now : Time)
        → decode_bearer_token toy_primitives toy_bare toy_keys now token
          ≡ (if after now (at 2000) then none else some alice_token))
unfolding str_eq timestamp_time
decode_bearer_token-encode_bearer_example =
    decode_bearer_token-encode_bearer toy_primitives toy_documented toy_bare toy_keys alice_token
      (codes "token") refl refl (omega arith)
      (omega arith, (omega arith, (omega arith, (omega arith, (omega arith, tt))))) refl

-- The last timestamp is long past: the seconds since the year 1 wrap.
timestamp_time_of_last : (timestamp_time (pos (2 ^ 63 - 1))).sec ≡ negsuc 9223372036854775808
unfolding timestamp_time
timestamp_time_of_last = refl

has-true_iff_example :
    (has
        (record { read_only = false; all = true; grants = []; encoded = [] })
        (codes "REPOS")
        rw_mode
      ≡ ok true)
    ↔ IsPermitted
        (record { read_only = false; all = true; grants = []; encoded = [] })
        (codes "REPOS")
        rw_mode
has-true_iff_example =
    has-true_iff (record { read_only = false; all = true; grants = []; encoded = [] })
      (codes "REPOS") rw_mode

decode_grants-ok_iff_example :
    ((g : Grants) × (decode_grants toy_context (codes "git.sr.ht/REPOS x") ≡ ok g)) ↔ (
      (codes "git.sr.ht/REPOS x" ≡ codes "") ⊎ All IsGrant (split b' ' (codes "git.sr.ht/REPOS x")))
unfolding service_name
decode_grants-ok_iff_example =
    decode_grants-ok_iff toy_context (codes "git.sr.ht") refl (codes "git.sr.ht/REPOS x")

abbrev first : Grant
first = record { service = codes "git.sr.ht"; scope = codes "REPOS"; access = some rw_mode }

abbrev second : Grant
second = record { service = codes "meta.sr.ht"; scope = codes "PROFILE"; access = none }

first-IsPlain : IsPlain first
first-IsPlain = record {
  no_space = lacks-Free b' ' (print_grant first) refl;
  service_no_slash = lacks-Free b'/' first.service refl;
  rest_no_slash = lacks-Free b'/' (first.scope ++ print_access first.access) refl;
  scope_no_colon = lacks-Free b':' first.scope refl;
  access_no_colon = lacks-Free b':' rw_mode refl;
}

second-IsPlain : IsPlain second
second-IsPlain = record {
  no_space = lacks-Free b' ' (print_grant second) refl;
  service_no_slash = lacks-Free b'/' second.service refl;
  rest_no_slash = lacks-Free b'/' (second.scope ++ print_access second.access) refl;
  scope_no_colon = lacks-Free b':' second.scope refl;
  access_no_colon = tt;
}

decode_grants-print_example :
    (r : Grants) × (decode_grants toy_context (codes "git.sr.ht/REPOS:RW meta.sr.ht/PROFILE")
      ≡ ok r)
    × Decodes
        (codes "git.sr.ht")
        (first ∷ second ∷ [])
        (codes "git.sr.ht/REPOS:RW meta.sr.ht/PROFILE")
        r
unfolding service_name
decode_grants-print_example =
    decode_grants-print toy_context (codes "git.sr.ht") first (second ∷ []) refl
      (first-IsPlain, (second-IsPlain, tt))

abbrev pub conf : IniFile
conf section key =
    some (if str_eq section (codes "webhooks") then encode_std (zeros 32) else zeros 32)

pub conf-toy_keys : init_crypto toy_primitives conf ≡ ok toy_keys
unfolding init_crypto str_eq
conf-toy_keys = rw (decode_std-encode_std (zeros 32) (IsBytes-zeros 32)) refl

verify_webhook-sign_webhook_example :
    (nonce signature : Str) × (sign_webhook toy_primitives toy_keys (some (zeros 8)) (codes "{}")
      ≡ ok (nonce, signature))
    × (verify_webhook toy_primitives toy_keys (codes "{}") nonce signature ≡ true)
verify_webhook-sign_webhook_example =
    verify_webhook-sign_webhook toy_primitives toy_documented conf toy_keys conf-toy_keys (zeros 8)
      (codes "{}")
