-- ===== src/V2/Crypto/Envelope.antt =====
-- Envelopes and derived keys: what one side makes, the other side reads.
use play_cpp_sdk.Prelude.{
  ◌<◌, ◌≡◌, some, ◌∷◌, ◌++◌, arith, length, take, drop, length-append, take-length-append,
  drop-length-append, subst,
}
use play_cpp_sdk.Prelude.Text.{Text, Bytes}
use play_cpp_sdk.Rust.Effect.{ok, panic}
use play_cpp_sdk.Hex.{Hex, IsLossless, IsBytes}
use play_cpp_sdk.V1.Crypto.{Key}
use play_cpp_sdk.V1.Protocol.{Topic}
use play_cpp_sdk.V2.Crypto.{
  Ciphers, IsSound, encrypt_and_encode, decode_decrypt, derive_from, derive_symkey_topic,
}

-- With sound ciphers, an envelope made with a nonce of 12 bytes is opened by the same key to the
-- same plaintext.
pub decode_decrypt-encrypt_and_encode :
    (c : Ciphers) (key : Key) (nonce plain : Bytes)
    → IsSound c
    → length nonce ≡ 12
    → decode_decrypt c key (encrypt_and_encode c nonce key plain) ≡ ok plain
unfolding decode_decrypt encrypt_and_encode
decode_decrypt-encrypt_and_encode c key nonce plain s n =
    let sealed = c.encrypt key.raw nonce plain in
    let decoded = s.decode-encode ((0 ∷ nonce) ++ sealed) in
    let size = length-append nonce sealed in
    let nonce_back : take 12 (nonce ++ sealed) ≡ nonce =
      subst (λ k. take k (nonce ++ sealed) ≡ nonce) n (take-length-append nonce sealed) in
    let rest_back : drop 12 (nonce ++ sealed) ≡ sealed =
      subst (λ k. drop k (nonce ++ sealed) ≡ sealed) n (drop-length-append nonce sealed) in
    let plain_back = s.decrypt-encrypt key.raw nonce plain in ground arith

-- A text that decodes to fewer than 13 bytes does not end in an error: opening it panics.
pub decode_decrypt_short :
    (c : Ciphers) (key : Key) (text : Text) (decoded : Bytes)
    → c.decode_base64 text ≡ some decoded
    → length decoded < 13
    → decode_decrypt c key text ≡ panic
unfolding decode_decrypt
decode_decrypt_short c key text decoded e h = ground arith

-- Both sides of a pairing derive the same topic and the same key, if X25519 agrees on the shared
-- secret: each from its own secret and from the other's public key of 32 bytes, printed in a
-- hexadecimal form that is read back.
pub derive_symkey_topic_agrees :
    (c : Ciphers) (h : Hex) (ours theirs : Key) (our_public their_public : Bytes)
    → IsLossless h
    → length our_public ≡ 32
    → length their_public ≡ 32
    → IsBytes our_public
    → IsBytes their_public
    → c.diffie_hellman ours.raw their_public ≡ c.diffie_hellman theirs.raw our_public
    → (pairing : Topic × Key) × (derive_symkey_topic c h (h.encode_crate their_public) ours
        ≡ some pairing)
      × (derive_symkey_topic c h (h.encode_crate our_public) theirs ≡ some pairing)
unfolding derive_symkey_topic derive_from
derive_symkey_topic_agrees c h ours theirs our_public their_public l size_ours size_theirs bo bt
      agree =
    let back_ours = l.decode-encode our_public bo in
    let back_theirs = l.decode-encode their_public bt in
    (derive_from c h their_public ours, ground arith, ground arith)
