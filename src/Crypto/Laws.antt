-- ===== src/Crypto/Laws.antt =====
-- What the package promises if the ciphers do what they document.
use core_go_nopgp.Base.{
  arith, Str, codes, length, true, some, ok, ◌≡◌, refl, ◌↔◌, str_eq_iff, sym, ◌++◌, >>=-eq-ok, must,
}
use core_go_nopgp.Codec.Base64.{IsBytes}
use core_go_nopgp.Codec.Base64.Padded.{decode_std-encode_std, encode_std, decode_std}
use core_go_nopgp.Codec.Hex
use core_go_nopgp.Config.{IniFile}
use core_go_nopgp.Errors.{
  no_webhook_key, webhook_key_not_base64, no_network_key, network_key_invalid,
}
use core_go_nopgp.Crypto.{
  Primitives, Keys, checked_seed, init_crypto, sign_webhook, verify_webhook, bearer_hmac,
  bearer_verify,
}

-- A signature made with a private key verifies with its public key, and signatures and MACs are
-- bytes, the MACs 32 of them.
pub record Documented (p : Primitives) : Type 0 where
  pub verify_sign :
      (seed message : Str)
      → p.ed25519_verify
          (p.public_key (p.new_key_from_seed seed))
          message
          (p.ed25519_sign (p.new_key_from_seed seed) message)
        ≡ true
  pub signature_IsBytes : (key message : Str) → IsBytes (p.ed25519_sign key message)
  pub mac_IsBytes : (key message : Str) → IsBytes (p.hmac_sha256 key message)
  pub mac_length : (key message : Str) → length (p.hmac_sha256 key message) ≡ 32
  pub decrypt_encrypt :
      (key message token : Str)
      → p.fernet_encrypt_and_sign message key ≡ some token
      → p.fernet_verify_and_decrypt token 0 key ≡ some message

-- The keys that `InitCrypto` leaves: the pair of one seed of 32 bytes, and the MAC key made of it.
pub record AreKeys (p : Primitives) (keys : Keys) : Type 0 where
  pub seed : Str
  pub seed_length : length seed ≡ 32
  pub webhook_sk : keys.webhook_sk ≡ p.new_key_from_seed seed
  pub webhook_pk : keys.webhook_pk ≡ p.public_key (p.new_key_from_seed seed)
  pub bearer_key :
      keys.bearer_key ≡ p.hmac_sha256 (p.new_key_from_seed seed) (codes "sr.ht HMAC key")

checked_seed-eq-ok :
    (p : Primitives) (decoded : Str) {seed : Str}
    → checked_seed p decoded ≡ ok seed
    → length seed ≡ 32
checked_seed-eq-ok p decoded h = ground arith

pub init_crypto-AreKeys :
    (p : Primitives) (conf : IniFile) (keys : Keys) → init_crypto p conf ≡ ok keys → AreKeys p keys
unfolding init_crypto
init_crypto-AreKeys p conf keys h =
    let (b64key, _, h₁) =
      >>=-eq-ok (must no_webhook_key (conf (codes "webhooks") (codes "private-key"))) _ h in
    let (decoded, _, h₂) = >>=-eq-ok (must webhook_key_not_base64 (decode_std b64key)) _ h₁ in
    let (seed, checked, h₃) = >>=-eq-ok (checked_seed p decoded) _ h₂ in
    let (b64fernet, _, h₄) =
      >>=-eq-ok (must no_network_key (conf (codes "sr.ht") (codes "network-key"))) _ h₃ in
    let (fernet, _, h₅) =
      >>=-eq-ok (must network_key_invalid (p.fernet_decode_key b64fernet)) _ h₄ in
    record {
      seed = seed;
      seed_length = checked_seed-eq-ok p decoded checked;
      webhook_sk = cc;
      webhook_pk = cc;
      bearer_key = cc;
    }

module _ (p : Primitives) (documented : Documented p) where
  module _ (conf : IniFile) (keys : Keys) (started : init_crypto p conf ≡ ok keys) where
    -- A webhook signed with the keys of a configuration verifies with them, at whatever nonce. The
    -- condition is that the ciphers are as documented (`Documented`): a signature verifies with
    -- the public key of its private key, and is bytes.
    pub verify_webhook-sign_webhook :
        (seed payload : Str)
        → (nonce signature : Str) × (sign_webhook p keys (some seed) payload
            ≡ ok (nonce, signature))
          × (verify_webhook p keys payload nonce signature ≡ true)
    unfolding sign_webhook verify_webhook
    verify_webhook-sign_webhook seed payload =
        let nonce = Hex.encode seed in
        let keys_ok = init_crypto-AreKeys p conf keys started in
        let signature = p.ed25519_sign keys.webhook_sk (payload ++ nonce) in
        (
          nonce,
          encode_std signature,
          refl,
          rw (decode_std-encode_std signature (documented.signature_IsBytes _ _)) (
              cc (
                documented.verify_sign keys_ok.seed (payload ++ nonce),
                keys_ok.webhook_pk,
                keys_ok.webhook_sk,
              )),
        )

  -- The MAC of a payload is the one signature that `BearerVerify` accepts for it.
  pub bearer_verify_iff :
      (keys : Keys) (payload signature : Str)
      → (bearer_verify p keys payload signature ≡ true) ↔ (signature ≡ bearer_hmac p keys payload)
  unfolding bearer_verify bearer_hmac
  bearer_verify_iff keys payload signature =
      (λ h. sym ((str_eq_iff _ _).0 h), λ e. (str_eq_iff _ _).1 (sym e))
