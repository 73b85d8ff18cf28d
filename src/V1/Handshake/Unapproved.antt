-- ===== src/V1/Handshake/Unapproved.antt =====
-- What `Socket::create_session` makes of an answer in which the wallet does not approve the session.
use play_cpp_sdk.Prelude.{ℕ, ◌≡◌, true, false, some, [], ◌∷◌, ◌++◌, arith}
use play_cpp_sdk.Prelude.Text.{Bytes}
use play_cpp_sdk.Rust.Effect.{ok}
use play_cpp_sdk.V1.Protocol.{Value, SessionParams}
use play_cpp_sdk.V1.Crypto.{Ciphers}
use play_cpp_sdk.V1.Session.{ClientChannelMessage, connected}
use play_cpp_sdk.V1.Session
use play_cpp_sdk.V1.Context.{Serde, World, with_session, with_pending_flag}
use play_cpp_sdk.V1.Socket.{Await, received, is_rejection}
use play_cpp_sdk.V1.Handshake.{start_session, finish_session, create_session}

module _ (serde : Serde) (ciphers : Ciphers) where
  finish_unapproved :
      (w2 : World) (ch : ℕ) (v : Value) (params : SessionParams)
      → is_rejection (serde.code_of v) ≡ false
      → serde.read_session_params v ≡ some params
      → params.approved ≡ false
      → w2.session.callback_channel ≡ some ch
      → w2.callbacks.is_open ch ≡ true
      → let w' = (finish_session serde ciphers (received v) w2).0 in
        ((finish_session serde ciphers (received v) w2).1 ≡ ok (params.accounts, params.chain_id))
        × (w'.session.info.connected ≡ false)
        × (w'.session_pending ≡ false)
        × (w'.callbacks.sent
            ≡ w2.callbacks.sent
              ++ (ch, record { state = connected; session = some w'.session.info }) ∷ [])
  unfolding finish_session with_session with_pending_flag Session.apply
  finish_unapproved w2 ch v params accepted reads refused has open_there =
      (ground arith, ground arith, ground arith, ground arith)

  -- An answer that is no rejection by its code, but in which the wallet does not approve the session, is
  -- taken for a success: where the handshake was started, the answer reads as session parameters,
  -- and the session's callback channel is open after the wait, the handshake returns the answer's
  -- accounts and chain id, and the application is told `Connected`, while the session that is left,
  -- which is the one in that message, is not connected, and the flag is down.
  pub create_session_unapproved :
      (await : Await) (iv : Bytes) (id tx ch : ℕ) (w w1 : World) (v : Value)
      (params : SessionParams)
      → start_session serde ciphers iv id w ≡ (w1, ok tx)
      → (await tx w1).1 ≡ received v
      → is_rejection (serde.code_of v) ≡ false
      → serde.read_session_params v ≡ some params
      → params.approved ≡ false
      → (await tx w1).0.session.callback_channel ≡ some ch
      → (await tx w1).0.callbacks.is_open ch ≡ true
      → let w' = (create_session serde ciphers await iv id w).0 in
        ((create_session serde ciphers await iv id w).1 ≡ ok (params.accounts, params.chain_id))
        × (w'.session.info.connected ≡ false)
        × (w'.session_pending ≡ false)
        × (w'.callbacks.sent
            ≡ (await tx w1).0.callbacks.sent
              ++ (ch, record { state = connected; session = some w'.session.info }) ∷ [])
  unfolding create_session
  create_session_unapproved await iv id tx ch w w1 v params started got accepted reads refused has
        open_there =
      let done =
        finish_unapproved (await tx w1).0 ch v params accepted reads refused has open_there in
      rw (started, got) done
