-- ===== src/V2/Crypto.antt =====
-- wallet-connect/src/v2/crypto.rs. ChaCha20-Poly1305, base64, X25519, HKDF and SHA-256 are parameters;
-- the nonce is an argument.
pub mod Envelope
use play_cpp_sdk.Prelude.{
  ◌+◌, ◌≡◌, Option, none, some, ◌∷◌, ◌++◌, if◌then◌else◌, length, take, drop, ltb, ◌==◌,
}
use play_cpp_sdk.Prelude.Text.{Text, Bytes}
use play_cpp_sdk.Rust.Effect.{Result, ok, err, panic}
use play_cpp_sdk.Hex.{Hex}
use play_cpp_sdk.Hex
use play_cpp_sdk.V1.Crypto.{Key, from_raw}
use play_cpp_sdk.V1.Protocol.{Topic}

pub record Ciphers : Type 0 where
  -- ChaCha20-Poly1305 with a key and a nonce; a key of another length than 32 is refused.
  pub encrypt : Bytes → Bytes → Bytes → Bytes
  pub decrypt : Bytes → Bytes → Bytes → Option Bytes
  pub encode_base64 : Bytes → Text
  pub decode_base64 : Text → Option Bytes
  -- The shared secret of a secret and a public key, the key expanded from a secret, and a digest.
  pub diffie_hellman : Bytes → Bytes → Bytes
  pub expand_key : Bytes → Bytes
  pub digest_sha256 : Bytes → Bytes

-- What the crates promise.
pub record IsSound (c : Ciphers) : Type 0 where
  pub decrypt-encrypt : (k n m : Bytes) → c.decrypt k n (c.encrypt k n m) ≡ some m
  pub decode-encode : (b : Bytes) → c.decode_base64 (c.encode_base64 b) ≡ some b

module _ (c : Ciphers) where
  -- The key is 32 bytes by its type, so `expect("correct key")` holds.
  unfoldable pub encrypt_and_encode : Bytes → Key → Bytes → Text
  encrypt_and_encode nonce key plain =
      let ciphertext = c.encrypt key.raw nonce plain in c.encode_base64 ((0 ∷ nonce) ++ ciphertext)

  abbrev decrypted : Option Bytes → Result (Unit {0}) Bytes
  decrypted none = err tt
  decrypted (some plain) = ok plain

  -- `&decoded[1..13]` panics on fewer than 13 bytes.
  decrypt_envelope : Key → Bytes → Result (Unit {0}) Bytes
  decrypt_envelope key decoded =
      if ltb (length decoded) 13
      then panic
      else decrypted (c.decrypt key.raw (take 12 (drop 1 decoded)) (drop 13 decoded))

  unfoldable pub decode_decrypt : Key → Text → Result (Unit {0}) Bytes
  unfolding decrypt_envelope
  decode_decrypt key text = elim (c.decode_base64 text) [
    | none ↦ err tt
    | some decoded ↦ decrypt_envelope key decoded
  ]

  module _ (h : Hex) where
    unfoldable pub derive_from : Bytes → Key → Topic × Key
    unfolding Hex.encode from_raw
    derive_from pk secret =
        let sym_key = c.expand_key (c.diffie_hellman secret.raw pk) in
        (Hex.encode h (c.digest_sha256 sym_key), from_raw sym_key)

    unfoldable pub derive_symkey_topic : Text → Key → Option (Topic × Key)
    unfolding derive_from Hex.decode
    derive_symkey_topic responder_public_key secret = elim (Hex.decode h responder_public_key) [
      | none ↦ none
      | some pk ↦ if length pk == 32 then some (derive_from pk secret) else none
    ]
