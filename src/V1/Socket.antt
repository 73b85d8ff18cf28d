-- ===== src/V1/Socket.antt =====
-- wallet-connect/src/client/socket.rs: requests to the wallet, the handler of received messages, and
-- the reader and the writer task. What other tasks do while a request waits is the argument `Await`.
pub mod Requests
pub mod Delivery
use play_cpp_sdk.Prelude.{
  ℕ, Bool, true, false, Option, none, some, List, [], ◌∷◌, if◌then◌else◌, length, leb, ◌==◌,
  unwrap_or, is_some,
}
use play_cpp_sdk.Prelude.Text.{Text, Bytes, text_eq, codes}
use play_cpp_sdk.Rust.Effect.{
  M, Result, ok, err, panic, ◌>>=◌, ◌>>◌, pure, fail, get, modify, or_fail, or_panic,
}
use play_cpp_sdk.V1.Protocol.{
  Value, Topic, Request, new_request, I64, negsuc, pos, SocketMessage, EncryptionPayload, publish,
  SocketMessageKind, response, session_update_request, Response, into_value, SessionUpdate,
}
use play_cpp_sdk.V1.Crypto.{Ciphers, OpenError, Key, seal, open_sealed}
use play_cpp_sdk.V1.Session.{Session}
use play_cpp_sdk.V1.Session
use play_cpp_sdk.V1.Context.{
  Serde, Error, limit_reached, serialization, queue_closed, channel_closed, rejected, unparsable,
  timed_out, not_exists, sent, dropped, World, open_oneshot, settle, insert_pending, remove_pending,
  take_pending, answer, enqueue, with_session,
}
use play_cpp_sdk.Prelude.Assoc.{lookup}

-- How `timeout(_, rx).await` ends: with a value, with a dropped sender, or by the time.
pub data Awaited : Type 0 where
  received : Value → Awaited
  closed elapsed : Awaited

-- What happens between the start of a wait on a channel and its end.
abbrev pub Await : Type 0
Await = ℕ → World → World × Awaited

-- `-32000 == value`.
unfoldable pub is_rejection : Option I64 → Bool
is_rejection none = false
is_rejection (some (pos n)) = false
is_rejection (some (negsuc n)) = n == 31999

abbrev pub queue_error : Text
queue_error = codes "\"Failed to send message to the queue\""

abbrev pub bridge_error : Text
bridge_error = codes "\"Failed to send message to the bridge server\""

module _ (serde : Serde) (ciphers : Ciphers) where
  -- `MessageHandler::handle`: there is never a message to send back.
  unfoldable pub handle_response : Response Value → World → World
  unfolding into_value
  handle_response resp w = elim (into_value serde.error_to_value resp.outcome) [
    | some value ↦ unwrap_or (take_pending resp.id (sent value) w) w
    | none ↦ unwrap_or (take_pending resp.id dropped w) w
  ]

  -- The lock, `Session::update`, and a panic if the callback channel is gone.
  unfoldable pub update_session : SessionUpdate → M World Error (Unit {0})
  update_session up w =
      let (s, cbs) = Session.update w.session up w.callbacks in
      elim cbs [
        | none ↦ (with_session s w, panic)
        | some cbs' ↦ (record (with_session s w) { callbacks = cbs' }, ok tt)
      ]

  unfoldable pub update_request : Text → List SessionUpdate → M World Error (Option Bytes)
  unfolding update_session
  update_request method (up ∷ []) =
      if text_eq method (codes "wc_sessionUpdate")
      then (do update_session up; pure none)
      else pure none
  update_request method _ = pure none

  unfoldable pub handle : Topic → Bytes → M World Error (Option Bytes)
  unfolding update_request handle_response
  handle topic payload = elim (serde.read_bridge_msg payload) [
    | none ↦ pure none
    | some msg ↦ elim msg [
      | response resp ↦ (do modify (handle_response resp); pure none)
      | session_update_request req ↦ update_request req.method req.params
    ]
  ]

  opened : Topic → Result OpenError Bytes → Option (Topic × Bytes)
  opened topic (ok decrypted) = some (topic, decrypted)
  opened topic (err e) = none
  opened topic panic = none

  unfoldable pub checked :
      Key → SocketMessageKind → Topic → Option EncryptionPayload → Option (Topic × Bytes)
  unfolding opened
  checked key publish topic (some payload) = opened topic (open_sealed ciphers key.raw payload)
  checked key _ topic _ = none

  -- A published message with a payload that the key opens.
  unfoldable pub check_socket_msg : Bytes → Key → Option (Topic × Bytes)
  unfolding checked
  check_socket_msg mmsg key = elim (serde.read_socket_message mmsg) [
    | none ↦ none
    | some msg ↦ checked key msg.kind msg.topic msg.payload
  ]

  unfoldable pub send_socket_msg : ℕ → SocketMessage → M World Error (Unit {0})
  send_socket_msg id msg = do
    bytes ← or_fail (serde.write_socket_message msg) serialization
    w ← get
    if w.queue_open
        then modify (enqueue (some id) bytes)
        else (do modify (answer id (serde.text_to_value queue_error)); fail queue_closed)

  -- A message to the wallet: published, sealed with the session's key.
  unfoldable pub sealed_message : Key → Bytes → Topic → Text → M World Error SocketMessage
  sealed_message key iv topic body = do
    payload ← or_panic (seal ciphers iv key.raw body)
    pure (record { topic = topic; kind = publish; payload = some payload; silent = true })

  abbrev reject_code : Value → M World Error (Unit {0})
  reject_code v = if is_rejection (serde.code_of v) then fail (rejected v) else pure tt

  -- The end of a request's wait.
  unfoldable pub finish_request : {R : Type 0} → (Value → Option R) → ℕ → Awaited → M World Error R
  unfolding is_rejection
  finish_request read id (received v) = do reject_code v; or_fail (read v) (unparsable v)
  finish_request read id closed = fail channel_closed
  finish_request read id elapsed = do
    w ← get
    if is_some (lookup id w.pending_requests)
        then (do modify (remove_pending id); fail (timed_out w.pending_requests_timeout))
        else fail not_exists

  -- The part of a request before its wait: the limit, the registration and the message.
  unfoldable pub start_request :
      {P : Type 0} → (Request P → Option Text) → Bytes → ℕ → Text → P → M World Error ℕ
  unfolding sealed_message send_socket_msg
  start_request write iv id method params = do
    start ← get
    let tx = start.next_oneshot
    modify open_oneshot
    if leb start.pending_requests_limit (length start.pending_requests)
        then (do modify (settle tx dropped); fail (limit_reached (length start.pending_requests)))
        else modify (insert_pending id tx)
    w ← get
    let info = w.session.info
    let topic = unwrap_or info.peer_id info.handshake_topic
    body ← or_fail (write (new_request id method params)) serialization
    message ← sealed_message info.key iv topic body
    send_socket_msg id message
    pure tx

  -- The wait for the answer, and what follows it.
  abbrev pub finish_after : {R : Type 0} → (Value → Option R) → Await → ℕ → ℕ → M World Error R
  finish_after read await id tx w =
      let (w', outcome) = await tx w in finish_request read id outcome w'

  unfoldable pub json_rpc_request :
      {P R : Type 0}
      → (Request P → Option Text)
      → (Value → Option R)
      → Await
      → Bytes
      → ℕ
      → Text
      → P
      → M World Error R
  unfolding start_request finish_request
  json_rpc_request write read await iv id method params = do
    tx ← start_request write iv id method params
    finish_after read await id tx
