-- ===== src/V2/Handlers/Effects.antt =====
-- How the handlers of the wallet's requests answer, and what they tell the application.
use play_cpp_sdk.Prelude.{
  ℕ, ◌+◌, ◌≡◌, Bool, true, false, some, List, [], ◌∷◌, ◌++◌, arith, Option-cases, Bool-cases, inl,
  inr,
}
use play_cpp_sdk.Prelude.Text.{Text, Bytes}
use play_cpp_sdk.Hex.{Hex}
use play_cpp_sdk.V1.Protocol.{Topic, Request, new_response}
use play_cpp_sdk.V1.Crypto.{Key}
use play_cpp_sdk.V2.Crypto.{Ciphers, encrypt_and_encode}
use play_cpp_sdk.V2.Protocol.{WcSessionSettle, WcSessionDelete, WcSessionUpdate}
use play_cpp_sdk.V2.Session
use play_cpp_sdk.V2.Tag
use play_cpp_sdk.V2.Context.{
  Serde, World, with_session, notify_waiters, send_message, send_response, send_callback, publish,
  ConnectorMessage,
}
use play_cpp_sdk.V2.Handlers.{
  handle_session_settle_request, handle_session_delete_request, handle_session_update_request,
}

-- The callbacks after a message for the application.
abbrev pub told : Bool → Text → List Text → List Text
told true text sent = sent ++ text ∷ []
told false text sent = sent

module _ (serde : Serde) (ciphers : Ciphers) (hex : Hex) (nonce : Bytes) where
  -- The answer `true` to the request `id`, as it is queued for the relay.
  abbrev pub acknowledgement : Topic → Key → Text → ℕ → ConnectorMessage
  acknowledgement t key reply tag = publish t (encrypt_and_encode ciphers nonce key reply) tag

  -- A settlement that is read and whose answer serialises, while there is a pairing and the queue
  -- takes messages, is acknowledged under its own id; then the wallet's namespaces and its
  -- metadata are kept, the session is connected, and those that wait for the session are woken;
  -- requests and callbacks stay as they are.
  pub settle_acknowledged :
      (plain : Bytes) (r : Request WcSessionSettle) (reply : Text) (t : Topic) (key : Key)
      (w : World)
      → serde.settle.read plain ≡ some r
      → serde.write_ack (new_response r.id true) ≡ some reply
      → w.session.pairing_topic_symkey ≡ some (t, key)
      → w.queue_open ≡ true
      → let w' = (handle_session_settle_request serde ciphers hex nonce plain w).0 in
        (w'.queue ≡ w.queue ++ acknowledgement t key reply Tag.settle_response ∷ [])
        × (w'.session.connected ≡ true)
        × (w'.session.namespaces ≡ some r.params.namespaces)
        × (w'.session.pairing_peer_meta ≡ some r.params.controller)
        × (w'.notified ≡ w.notified + 1)
        × (w'.pending_requests ≡ w.pending_requests)
        × (w'.callbacks ≡ w.callbacks)
  unfolding handle_session_settle_request send_response send_message with_session notify_waiters
      Session.session_settle
  settle_acknowledged plain r reply t key w reads writes paired opened = (
    ground arith,
    ground arith,
    ground arith,
    ground arith,
    ground arith,
    ground arith,
    ground arith,
  )

  -- An update of the session that is read and serialises, while there is a pairing, the queue
  -- takes messages and the application still receives, is acknowledged under its own id; its
  -- namespaces replace those of the session, and the application gets the request if it asked for
  -- that.
  pub update_acknowledged :
      (plain : Bytes) (r : Request WcSessionUpdate) (reply text : Text) (t : Topic) (key : Key)
      (has_callback : Bool) (w : World)
      → serde.update.read plain ≡ some r
      → serde.write_ack (new_response r.id true) ≡ some reply
      → serde.update.write r ≡ some text
      → w.session.pairing_topic_symkey ≡ some (t, key)
      → w.queue_open ≡ true
      → w.callbacks_open ≡ true
      → let w' = (handle_session_update_request serde ciphers hex nonce plain has_callback w).0 in
        (w'.queue ≡ w.queue ++ acknowledgement t key reply Tag.update_response ∷ [])
        × (w'.session ≡ record w.session { namespaces = some r.params.namespaces })
        × (w'.callbacks ≡ told has_callback text w.callbacks)
        × (w'.pending_requests ≡ w.pending_requests)
  unfolding handle_session_update_request send_response send_callback send_message with_session
      Session.session_update
  update_acknowledged plain r reply text t key has_callback w reads writes tells paired opened
        calls =
      elim (Bool-cases has_callback) [
        | inl has ↦ (ground arith, ground arith, ground arith, ground arith)
        | inr has ↦ (ground arith, ground arith, ground arith, ground arith)
      ]

  -- The end of the session is never acknowledged: the pairing is gone before the answer is sent,
  -- so whatever request to delete is read, the queue stays as it is. The session is closed and
  -- forgets the wallet.
  pub delete_unanswered :
      (plain : Bytes) (r : Request WcSessionDelete) (has_callback : Bool) (w : World)
      → serde.delete.read plain ≡ some r
      → let w' = (handle_session_delete_request serde ciphers hex nonce plain has_callback w).0 in
        (w'.queue ≡ w.queue) × (w'.session ≡ Session.session_delete w.session)
  unfolding handle_session_delete_request send_response send_callback with_session
      Session.session_delete
  delete_unanswered plain r has_callback w reads =
      elim (Option-cases (serde.write_ack (new_response r.id true))) [
        | inl bad ↦ (ground arith, ground arith)
        | inr (reply, good) ↦ elim (Option-cases (serde.delete.write r)) [
          | inl bad ↦ (ground arith, ground arith)
          | inr (text, writes) ↦ (ground arith, ground arith)
        ]
      ]
