-- ===== src/V2/Handlers/Replies.antt =====
-- Answers and callbacks leave the session as it is.
use play_cpp_sdk.Prelude.{ℕ, ◌≡◌, Bool, arith, Option-cases, inl, inr}
use play_cpp_sdk.Prelude.Text.{Bytes}
use play_cpp_sdk.Rust.Effect.{Result, ok, err, panic, continue}
use play_cpp_sdk.Hex.{Hex}
use play_cpp_sdk.V1.Protocol.{Response}
use play_cpp_sdk.V2.Crypto.{Ciphers}
use play_cpp_sdk.V2.Context.{
  Codec, Serde, Error, World, send_message, send_response, send_callback, ConnectorMessage,
}

module _ (serde : Serde) (ciphers : Ciphers) (hex : Hex) where
  send_message-session : (m : ConnectorMessage) (w : World) → (send_message m w).session ≡ w.session
  unfolding send_message
  send_message-session m w = ground arith

  pub send_response-session :
      (nonce : Bytes) (response : Response Bool) (tag : ℕ) (w : World)
      → (send_response serde ciphers nonce response tag w).0.session ≡ w.session
  unfolding send_response send_message
  send_response-session nonce response tag w = elim (Option-cases (serde.write_ack response)) [
    | inl bad ↦ ground arith
    | inr (reply, good) ↦ elim (Option-cases w.session.pairing_topic_symkey) [
      | inl alone ↦ ground arith
      | inr ((t, key), paired) ↦ ground arith
    ]
  ]

  pub send_callback-session :
      {T : Type 0} (codec : Codec T) (message : T) (has_callback : Bool) (w : World)
      → (send_callback serde ciphers codec message has_callback w).0.session ≡ w.session
  unfolding send_callback
  send_callback-session codec message has_callback w = elim (Option-cases (codec.write message)) [
    | inl bad ↦ ground arith
    | inr (text, good) ↦ ground arith
  ]

  -- The answer and the callback behind a change of the session.
  pub answered :
      {T : Type 0} (codec : Codec T) (message : T) (has_callback : Bool) (nonce : Bytes)
      (response : Response Bool) (tag : ℕ) (w : World)
      → (continue
          (send_response serde ciphers nonce response tag w)
          (λ _. send_callback serde ciphers codec message has_callback)).0.session
        ≡ w.session
  answered codec message has_callback nonce response tag w =
      let first = send_response-session nonce response tag w in
      after (send_response serde ciphers nonce response tag w) first
    where
      after :
          (r : World × Result Error (Unit {0}))
          → r.0.session ≡ w.session
          → (continue r (λ _. send_callback serde ciphers codec message has_callback)).0.session
            ≡ w.session
      after (v, ok a) same = ground (arith, send_callback-session codec message has_callback v)
      after (v, err e) same = same
      after (v, panic) same = same
