-- ===== src/V2/Handlers.antt =====
-- The handlers of wallet-connect/src/v2/core.rs for what the wallet sends.
pub mod Effects
pub mod Replies
pub mod Settled
pub mod Changes
pub mod Responses
use play_cpp_sdk.Prelude.{Bool, true, none, some, unwrap_or}
use play_cpp_sdk.Prelude.Text.{Bytes}
use play_cpp_sdk.Rust.Effect.{M, ok, err, panic, ◌>>=◌, ◌>>◌, pure, get, modify, or_fail}
use play_cpp_sdk.Hex.{Hex}
use play_cpp_sdk.V1.Protocol.{new_response, ResponseData, into_result, into_value}
use play_cpp_sdk.V2.Crypto.{Ciphers}
use play_cpp_sdk.V2.Protocol.{WcSessionProposeResponse}
use play_cpp_sdk.V2.Session
use play_cpp_sdk.V2.Tag
use play_cpp_sdk.V2.Context.{
  Serde, Error, unreadable, request_not_found, serialization, Oneshot, sent, dropped, World,
  take_pending, with_session, notify_waiters, send_message, send_response, send_callback, subscribe,
}

module _ (serde : Serde) (ciphers : Ciphers) (hex : Hex) where
  -- The session after an accepted proposal, and the subscription to the new topic.
  unfoldable pub accept_proposal : WcSessionProposeResponse → World → World
  unfolding with_session send_message Session.session_proposal_response
  accept_proposal r w =
      let (s, topic) = Session.session_proposal_response ciphers hex w.session r in
      let w' = with_session s w in elim topic [ none ↦ w' | some t ↦ send_message (subscribe t) w' ]

  unfoldable pub apply_proposal : ResponseData WcSessionProposeResponse → World → World
  unfolding accept_proposal into_result
  apply_proposal d w = elim (into_result d) [ ok r ↦ accept_proposal r w | err e ↦ w | panic ↦ w ]

  unfoldable pub handle_session_proposal_response : Bytes → M World Error (Unit {0})
  unfolding apply_proposal take_pending
  handle_session_proposal_response plain = do
    response ← or_fail (serde.read_propose_response plain) unreadable
    response_json ← or_fail (serde.propose_response_to_value response) serialization
    modify (apply_proposal response.outcome)
    modify (λ w. unwrap_or (take_pending response.id (sent response_json) w) w)

  unfoldable pub handle_session_settle_request : Bytes → Bytes → M World Error (Unit {0})
  unfolding send_response with_session notify_waiters Session.session_settle
  handle_session_settle_request nonce plain = do
    request ← or_fail (serde.settle.read plain) unreadable
    send_response serde ciphers nonce (new_response request.id true) Tag.settle_response
    modify (λ w.
        with_session (record (Session.session_settle w.session request.params) { connected = true })
          w)
    modify notify_waiters

  unfoldable pub handle_session_event_request : Bytes → Bytes → Bool → M World Error (Unit {0})
  unfolding send_response send_callback
  handle_session_event_request nonce plain has_callback = do
    request ← or_fail (serde.event.read plain) unreadable
    send_response serde ciphers nonce (new_response request.id true) Tag.event_response
    send_callback serde ciphers serde.event request has_callback

  unfoldable pub handle_session_delete_request : Bytes → Bytes → Bool → M World Error (Unit {0})
  unfolding send_response send_callback with_session Session.session_delete
  handle_session_delete_request nonce plain has_callback = do
    request ← or_fail (serde.delete.read plain) unreadable
    modify (λ w. with_session (Session.session_delete w.session) w)
    send_response serde ciphers nonce (new_response request.id true) Tag.delete_response
    send_callback serde ciphers serde.delete request has_callback

  unfoldable pub handle_session_update_request : Bytes → Bytes → Bool → M World Error (Unit {0})
  unfolding send_response send_callback with_session Session.session_update
  handle_session_update_request nonce plain has_callback = do
    request ← or_fail (serde.update.read plain) unreadable
    modify (λ w. with_session (Session.session_update w.session request.params) w)
    send_response serde ciphers nonce (new_response request.id true) Tag.update_response
    send_callback serde ciphers serde.update request has_callback

  unfoldable pub handle_session_extend_request : Bytes → Bytes → Bool → M World Error (Unit {0})
  unfolding send_response send_callback with_session Session.session_extend
  handle_session_extend_request nonce plain has_callback = do
    request ← or_fail (serde.extend.read plain) unreadable
    modify (λ w. with_session (Session.session_extend w.session) w)
    send_response serde ciphers nonce (new_response request.id true) Tag.extend_response
    send_callback serde ciphers serde.extend request has_callback

  unfoldable pub handle_session_ping_request : Bytes → Bytes → Bool → M World Error (Unit {0})
  unfolding send_response send_callback
  handle_session_ping_request nonce plain has_callback = do
    request ← or_fail (serde.ping.read plain) unreadable
    send_response serde ciphers nonce (new_response request.id true) Tag.ping_response
    send_callback serde ciphers serde.ping request has_callback

  unfoldable pub handle_normal_rpc_response : Bytes → M World Error (Unit {0})
  unfolding take_pending into_value
  handle_normal_rpc_response plain = do
    response ← or_fail (serde.read_response plain) unreadable
    w ← get
    let value = into_value serde.error_to_value response.outcome
    let state : Oneshot = elim value [ none ↦ dropped | some v ↦ sent v ]
    w' ← or_fail (take_pending response.id state w) request_not_found
    modify (λ _. w')
    _ ← or_fail value serialization
    pure tt
