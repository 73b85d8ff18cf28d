-- ===== src/V1/Crypto/Laws.antt =====
-- What sealing and opening, printing and parsing a key promise together.
use play_cpp_sdk.Prelude.{◌≡◌, ◌≢◌, refl, subst, ◌↔◌, some, arith, length}
use play_cpp_sdk.Prelude.Text.{Bytes, text_eq_iff, text_eq_self}
use play_cpp_sdk.Rust.Effect.{ok, err}
use play_cpp_sdk.Hex.{Hex, IsBytes, IsLossless}
use play_cpp_sdk.V1.Protocol.{EncryptionPayload}
use play_cpp_sdk.V1.Crypto.{
  Ciphers, IsSound, verify, hmac_sha256, seal, open_sealed, Key, from_str, display, serialize,
  deserialize,
}

-- With sound ciphers, a payload sealed with a key of 32 bytes and a nonce of 16 bytes is opened by
-- the same key to the plaintext; so sealing with such a key never panics.
pub open_sealed-seal :
    (c : Ciphers) (key iv plaintext : Bytes)
    → IsSound c
    → length key ≡ 32
    → length iv ≡ 16
    → (p : EncryptionPayload) × (seal c iv key plaintext ≡ some p)
      × (open_sealed c key p ≡ ok plaintext)
unfolding seal open_sealed
open_sealed-seal c key iv m s hk hv =
    let taken = s.accepts_lengths key iv hk hv in
    let sealed = c.encrypt_padded key iv m in
    let tag = hmac_sha256 c key iv sealed in
    (
      record { encrypted = sealed; hmac = tag; iv = iv },
      rw taken refl,
      rw (text_eq_self tag, taken, s.decrypt-encrypt key iv m taken) refl,
    )

-- Opening ends in the error `Verify` exactly when the payload's tag is not the HMAC of its nonce and
-- data under the key: neither can be changed without the key.
pub open_sealed-verify :
    (c : Ciphers) (key : Bytes) (p : EncryptionPayload)
    → (open_sealed c key p ≡ err verify) ↔ (hmac_sha256 c key p.iv p.encrypted ≢ p.hmac)
unfolding open_sealed
open_sealed-verify c key p =
    let tag = hmac_sha256 c key p.iv p.encrypted in
    (
      (λ e same. ground (arith, text_eq_iff tag p.hmac)),
      λ ne. ground (arith, text_eq_iff tag p.hmac),
    )

-- What is opened carries the HMAC of its data and nonce under the key, and is their decryption.
pub open_sealed_ok :
    (c : Ciphers) (key : Bytes) (p : EncryptionPayload) (m : Bytes)
    → open_sealed c key p ≡ ok m
    → (hmac_sha256 c key p.iv p.encrypted ≡ p.hmac)
      × (c.decrypt_padded key p.iv p.encrypted ≡ some m)
unfolding open_sealed
open_sealed_ok c key p m e =
    let same = text_eq_iff (hmac_sha256 c key p.iv p.encrypted) p.hmac in
    (ground arith, ground arith)

-- A key of 32 bytes is read back from its printed and from its serialised form, if hexadecimal
-- texts are read back.
pub from_str-display :
    (h : Hex) (k : Key)
    → IsLossless h
    → length k.raw ≡ 32
    → IsBytes k.raw
    → (from_str h (display h k) ≡ some k) × (deserialize h (serialize h k) ≡ some k)
unfolding from_str display deserialize serialize
from_str-display h k l n b =
    let slice =
      subst (λ m. h.decode_to_slice (h.encode_crate k.raw) m ≡ some k.raw) n
        (l.slice-encode k.raw b) in
    (rw slice refl, rw slice refl)
