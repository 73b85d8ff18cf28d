-- ===== src/V1/Handshake.antt =====
-- `Socket::create_session` and `Socket::subscribe` of wallet-connect/src/client/socket.rs.
pub mod Outcomes
pub mod Unapproved
use play_cpp_sdk.Prelude.{ℕ, true, false, none, some, List, [], ◌∷◌, if◌then◌else◌, unwrap_or}
use play_cpp_sdk.Prelude.Text.{Bytes, codes}
use play_cpp_sdk.Rust.Effect.{M, ok, panic, ◌>>=◌, ◌>>◌, pure, fail, get, modify, or_fail}
use play_cpp_sdk.V1.Protocol.{Value, Topic, Address, new_request, subscribe, SessionParams}
use play_cpp_sdk.V1.Crypto.{Ciphers}
use play_cpp_sdk.V1.Session
use play_cpp_sdk.V1.Context.{
  Serde, Error, already_connected, already_pending, serialization, queue_closed, channel_closed,
  rejected, unparsable, World, open_oneshot, insert_pending, enqueue, with_session,
  with_pending_flag,
}
use play_cpp_sdk.V1.Socket.{
  Await, Awaited, received, closed, elapsed, is_rejection, sealed_message, send_socket_msg,
}

module _ (serde : Serde) (ciphers : Ciphers) where
  -- `rx.await?`: this wait has no time limit.
  wait_value : Awaited → M World Error Value
  wait_value (received v) = pure v
  wait_value closed = fail channel_closed
  wait_value elapsed = fail channel_closed

  -- The lock and `Session::apply`, with a panic if the callback channel is gone.
  unfoldable pub apply_session : SessionParams → M World Error (Unit {0})
  apply_session params w =
      let (s, cbs) = Session.apply w.session params w.callbacks in
      elim cbs [
        | none ↦ (with_session s w, panic)
        | some cbs' ↦ (record (with_session s w) { callbacks = cbs' }, ok tt)
      ]

  -- Before the wait: the two guards, the flag, the registration and the message.
  unfoldable pub start_session : Bytes → ℕ → M World Error ℕ
  unfolding sealed_message send_socket_msg
  start_session iv id = do
    start ← get
    if start.session.info.connected then fail already_connected else pure tt
    if start.session_pending then fail already_pending else pure tt
    modify (with_pending_flag true)
    let tx = start.next_oneshot
    modify open_oneshot
    modify (insert_pending id tx)
    let info = start.session.info
    let session_req = Session.request start.session
    body ←
        or_fail
          (serde.write_session_request
            (new_request id (codes "wc_sessionRequest") (session_req ∷ [])))
          serialization
    message ← sealed_message serde ciphers info.key iv info.handshake_topic body
    send_socket_msg serde ciphers id message
    pure tx

  -- After the wait: the answer is checked and applied, and the flag falls.
  unfoldable pub finish_session : Awaited → M World Error (List Address × ℕ)
  unfolding wait_value apply_session is_rejection
  finish_session outcome = do
    response ← wait_value outcome
    if is_rejection (serde.code_of response) then fail (rejected response) else pure tt
    session_params ← or_fail (serde.read_session_params response) (unparsable response)
    apply_session session_params
    modify (with_pending_flag false)
    w ← get
    pure (w.session.info.accounts, unwrap_or w.session.info.chain_id 0)

  unfoldable pub create_session : Await → Bytes → ℕ → M World Error (List Address × ℕ)
  unfolding start_session finish_session
  create_session await iv id = do
    tx ← start_session iv id
    w ← get
    let (w', outcome) = await tx w
    modify (λ _. w')
    finish_session outcome

  unfoldable pub subscribe_topic : Topic → M World Error (Unit {0})
  subscribe_topic topic = do
    payload ←
        or_fail
          (serde.write_socket_message
            (record { topic = topic; kind = subscribe; payload = none; silent = true }))
          serialization
    w ← get
    if w.queue_open then modify (enqueue none payload) else fail queue_closed
