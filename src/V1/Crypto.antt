-- ===== src/V1/Crypto.antt =====
-- wallet-connect/src/crypto/{aead,key}.rs. AES-256-CBC and HMAC-SHA256 are parameters; the nonce that
-- `generate_iv` draws is an argument.
pub mod Laws
use play_cpp_sdk.Prelude.{◌≡◌, Bool, true, Option, none, some, ◌++◌, if◌then◌else◌, length}
use play_cpp_sdk.Prelude.Text.{Text, Bytes, text_eq, codes}
use play_cpp_sdk.Rust.Effect.{Result, ok, err}
use play_cpp_sdk.Hex.{Hex}
use play_cpp_sdk.Hex
use play_cpp_sdk.V1.Protocol.{EncryptionPayload}

-- The crates `hmac`, `sha2`, `aes` and `cbc`.
pub record Ciphers : Type 0 where
  -- HMAC-SHA256 of a message under a key.
  pub mac : Bytes → Bytes → Bytes
  -- Whether `new_from_slices` takes a key and a nonce.
  pub accepts : Bytes → Bytes → Bool
  -- Encryption and decryption with a key and a nonce, padded as PKCS 7 says.
  pub encrypt_padded : Bytes → Bytes → Bytes → Bytes
  pub decrypt_padded : Bytes → Bytes → Bytes → Option Bytes

-- What the crates promise: keys of 32 and nonces of 16 bytes are taken, and decryption undoes
-- encryption.
pub record IsSound (c : Ciphers) : Type 0 where
  pub accepts_lengths : (k iv : Bytes) → length k ≡ 32 → length iv ≡ 16 → c.accepts k iv ≡ true
  pub decrypt-encrypt :
      (k iv m : Bytes)
      → c.accepts k iv ≡ true
      → c.decrypt_padded k iv (c.encrypt_padded k iv m) ≡ some m

pub data OpenError : Type 0 where
  invalid_encryption decryption_error verify : OpenError

module _ (c : Ciphers) where
  unfoldable pub hmac_sha256 : Bytes → Bytes → Bytes → Bytes
  hmac_sha256 key iv message = c.mac key (message ++ iv)

  -- `none` where `new_from_slices(..).unwrap()` panics.
  unfoldable pub seal : Bytes → Bytes → Bytes → Option EncryptionPayload
  unfolding hmac_sha256
  seal iv key plaintext =
      let sealed = c.encrypt_padded key iv plaintext in
      if c.accepts key iv
      then some (record { encrypted = sealed; hmac = hmac_sha256 key iv sealed; iv = iv })
      else none

  decrypt : Option Bytes → Result OpenError Bytes
  decrypt none = err decryption_error
  decrypt (some plaintext) = ok plaintext

  unfoldable pub open_sealed : Bytes → EncryptionPayload → Result OpenError Bytes
  unfolding hmac_sha256 decrypt
  open_sealed key payload =
      let tag = hmac_sha256 key payload.iv payload.encrypted in
      if text_eq tag payload.hmac
      then if c.accepts key payload.iv
        then decrypt (c.decrypt_padded key payload.iv payload.encrypted)
        else err invalid_encryption
      else err verify

-- `Key`: the 32 raw bytes of a symmetric key.
pub record Key : Type 0 where
  pub raw : Bytes

unfoldable pub from_raw : Bytes → Key
from_raw raw = record { raw = raw }

-- `impl Debug`: the bytes are not shown.
unfoldable pub debug : Key → Text
debug k = codes "Key(********)"

module _ (h : Hex) where
  unfoldable pub display : Key → Text
  unfolding Hex.encode
  display k = Hex.encode h k.raw

  abbrev key_of : Option Bytes → Option Key
  key_of none = none
  key_of (some bytes) = some (from_raw bytes)

  -- `FromStr`: into a buffer of 32 bytes.
  unfoldable pub from_str : Text → Option Key
  unfolding Hex.decode_mut from_raw
  from_str s = key_of (Hex.decode_mut h s 32)

  -- `Serialize` and `Deserialize`: the JSON string's content.
  unfoldable pub serialize : Key → Text
  unfolding display
  serialize k = display k

  unfoldable pub deserialize : Text → Option Key
  unfolding from_str
  deserialize s = from_str s
