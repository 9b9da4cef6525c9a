-- ===== src/Crypto.antt =====
-- crypto/crypto.go. The ciphers are parameters; what is modelled is how the package uses them: its
-- keys, the parts that are signed, and the encodings round them.
pub mod Laws
use core_go_nopgp.Base.{
  ℕ, Str, codes, str_eq, length, ◌==◌, not, Bool, true, false, Option, none, some, ◌++◌,
  if◌then◌else◌, Go, ok, panic, ◌>>=◌, ◌>>◌, must,
}
use core_go_nopgp.Codec.Base64.Padded.{encode_std, decode_std}
use core_go_nopgp.Codec.Hex
use core_go_nopgp.Config.{IniFile}
use core_go_nopgp.Errors.{
  Error, no_webhook_key, webhook_key_not_base64, webhook_key_length, no_network_key,
  network_key_invalid, encryption_failed, expiration_of_zero, nonce_failed,
}

-- crypto/ed25519, crypto/hmac over SHA-256, and fernet-go.
pub record Primitives : Type 0 where
  pub new_key_from_seed : Str → Str
  pub public_key : Str → Str
  pub ed25519_sign : Str → Str → Str
  pub ed25519_verify : Str → Str → Str → Bool
  pub hmac_sha256 : Str → Str → Str
  pub fernet_decode_key : Str → Option Str
  -- The payload and the key; `none` where no randomness is to be had.
  pub fernet_encrypt_and_sign : Str → Str → Option Str
  -- The message, the time to live in nanoseconds (0 for no expiration) and the key.
  pub fernet_verify_and_decrypt : Str → ℕ → Str → Option Str

-- The variables of the package.
pub record Keys : Type 0 where
  pub webhook_sk : Str
  pub webhook_pk : Str
  pub bearer_key : Str
  pub fernet_key : Str

module _ (p : Primitives) where
  open p use {
    new_key_from_seed, public_key, ed25519_sign, ed25519_verify, hmac_sha256, fernet_decode_key,
    fernet_encrypt_and_sign, fernet_verify_and_decrypt,
  }

  -- NewKeyFromSeed panics at a seed that is not 32 bytes long.
  abbrev checked_seed : Str → Go Error Str
  checked_seed seed = if length seed == 32 then ok seed else panic webhook_key_length

  -- `InitCrypto`
  unfoldable pub init_crypto : IniFile → Go Error Keys
  init_crypto conf = do
    b64key ← must no_webhook_key (conf (codes "webhooks") (codes "private-key"))
    decoded ← must webhook_key_not_base64 (decode_std b64key)
    seed ← checked_seed decoded
    b64fernet ← must no_network_key (conf (codes "sr.ht") (codes "network-key"))
    fernet ← must network_key_invalid (fernet_decode_key b64fernet)
    let sk = new_key_from_seed seed
    ok (record {
      webhook_sk = sk;
      webhook_pk = public_key sk;
      bearer_key = hmac_sha256 sk (codes "sr.ht HMAC key");
      fernet_key = fernet;
    })

  module _ (keys : Keys) where
    -- `Sign`
    abbrev pub sign : Str → Str
    sign payload = ed25519_sign keys.webhook_sk payload

    -- `Verify`
    abbrev pub verify : Str → Str → Bool
    verify payload signature = ed25519_verify keys.webhook_pk payload signature

    -- `Encrypt`
    unfoldable pub encrypt : Str → Go Error Str
    encrypt payload = must encryption_failed (fernet_encrypt_and_sign payload keys.fernet_key)

    -- `DecryptWithoutExpiration`
    unfoldable pub decrypt_without_expiration : Str → Option Str
    decrypt_without_expiration payload = fernet_verify_and_decrypt payload 0 keys.fernet_key

    -- `DecryptWithExpiration`
    unfoldable pub decrypt_with_expiration : Str → ℕ → Go Error (Option Str)
    decrypt_with_expiration payload expiry =
        if expiry == 0
        then panic expiration_of_zero
        else ok (fernet_verify_and_decrypt payload expiry keys.fernet_key)

    -- `BearerHMAC`
    unfoldable pub bearer_hmac : Str → Str
    bearer_hmac payload = hmac_sha256 keys.bearer_key payload

    -- `BearerVerify`; hmac.Equal compares all of the bytes.
    unfoldable pub bearer_verify : Str → Str → Bool
    bearer_verify payload signature = str_eq (hmac_sha256 keys.bearer_key payload) signature

    -- `SignWebhook`, with the eight bytes that rand.Read gave, or its failure.
    unfoldable pub sign_webhook : Option Str → Str → Go Error (Str × Str)
    sign_webhook seed payload = do
      nonce_seed ← must nonce_failed seed
      let nonce = Hex.encode nonce_seed
      ok (nonce, encode_std (sign (payload ++ nonce)))

    abbrev verify_decoded : Str → Option Str → Bool
    verify_decoded message none = false
    verify_decoded message (some signature) = verify message signature

    -- `VerifyWebhook`
    unfoldable pub verify_webhook : Str → Str → Str → Bool
    verify_webhook payload nonce signature =
        verify_decoded (payload ++ nonce) (decode_std signature)
