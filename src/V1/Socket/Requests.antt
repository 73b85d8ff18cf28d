-- ===== src/V1/Socket/Requests.antt =====
-- What a JSON-RPC request does, on each of its ends.
use play_cpp_sdk.Prelude.{
  ℕ, ◌≤◌, ◌<◌, ◌≡◌, refl, true, false, Option, none, some, [], ◌∷◌, ◌++◌, arith, if◌then◌else◌,
  length, inl, inr, unwrap_or, is_some,
}
use play_cpp_sdk.Prelude.Text.{Text, Bytes}
use play_cpp_sdk.Prelude.Assoc.{lookup, lookup-erase}
use play_cpp_sdk.Rust.Effect.{Result, ok, err, continue-eq-ok}
use play_cpp_sdk.V1.Protocol.{
  Value, Request, new_request, SocketMessage, publish, EncryptionPayload,
}
use play_cpp_sdk.V1.Crypto.{Ciphers, IsSound, open_sealed}
use play_cpp_sdk.V1.Crypto.Laws.{open_sealed-seal}
use play_cpp_sdk.V1.Context.{
  Serde, Error, limit_reached, serialization, queue_closed, sent, timed_out, not_exists, World,
  open_oneshot, settle, remove_pending, answer, enqueue,
}
use play_cpp_sdk.V1.Context.Pending.{register, register_pending, answer-Takes}
use play_cpp_sdk.V1.Context.Sizes.{register-Rest, register_size, answer_size, answer_limit}
use play_cpp_sdk.V1.Socket.{
  Await, Awaited, received, closed, elapsed, is_rejection, start_request, finish_request,
  json_rpc_request, queue_error,
}

module _ (serde : Serde) (ciphers : Ciphers) {P R : Type 0} (write : Request P → Option Text)
    (read : Value → Option R) (await : Await) (iv : Bytes) (id : ℕ) (method : Text) (params : P)
    (w : World) where
  abbrev pub start : World × Result Error ℕ
  start = start_request serde ciphers write iv id method params w

  abbrev pub run : World × Result Error R
  run = json_rpc_request serde ciphers write read await iv id method params w

  -- With as many requests pending as the limit allows, a request fails at once: nothing is registered
  -- or sent, and the requests that are pending are not touched.
  pub request_over_limit :
      w.pending_requests_limit ≤ length w.pending_requests
      → (run.1 ≡ err (limit_reached (length w.pending_requests)))
        × (run.0.pending_requests ≡ w.pending_requests)
        × (run.0.queue ≡ w.queue)
        × (run.0.session ≡ w.session)
  unfolding json_rpc_request open_oneshot settle
  request_over_limit full = (ground arith, ground arith, ground arith, ground arith)

  -- With ciphers that are sound, a session key of 32 bytes and a nonce of 16 bytes, a request
  -- under the limit whose parameters and message serialise, while the queue takes messages, leaves
  -- one new message in the queue and is registered; the message is published to the peer, or to
  -- the handshake's topic as long as there is no peer, and who has the session's key reads the
  -- request from it.
  pub request_sends :
      (body : Text) (bytes : EncryptionPayload → Bytes)
      → IsSound ciphers
      → length w.session.info.key.raw ≡ 32
      → length iv ≡ 16
      → length w.pending_requests < w.pending_requests_limit
      → w.queue_open ≡ true
      → write (new_request id method params) ≡ some body
      → ((p : EncryptionPayload)
          → serde.write_socket_message (record {
            topic = unwrap_or w.session.info.peer_id w.session.info.handshake_topic;
            kind = publish;
            payload = some p;
            silent = true;
          })
            ≡ some (bytes p))
      → (p : EncryptionPayload) × (open_sealed ciphers w.session.info.key.raw p ≡ ok body)
        × (start.1 ≡ ok w.next_oneshot)
        × (start.0.queue ≡ w.queue ++ (some id, bytes p) ∷ [])
        × (lookup id start.0.pending_requests ≡ some w.next_oneshot)
  unfolding start_request enqueue
  request_sends body bytes sound hk hv room opened e msg =
      let (p, sealed, reads) =
        open_sealed-seal ciphers w.session.info.key.raw iv body sound hk hv in
      let rest = register-Rest id w in
      let m = msg p in
      let there = register_pending id id w in (p, reads, ground arith, ground arith, ground arith)

  -- A request that was sent and waits until its time is over is taken out of the map, whatever
  -- happened during the wait; its error says whether it was still there.
  pub request_timeout :
      (tx : ℕ) (w1 : World)
      → start ≡ (w1, ok tx)
      → (await tx w1).1 ≡ elapsed
      → (lookup id run.0.pending_requests ≡ none)
        × (run.1 ≡ (
            if is_some (lookup id (await tx w1).0.pending_requests)
            then err (timed_out (await tx w1).0.pending_requests_timeout)
            else err not_exists))
  unfolding json_rpc_request remove_pending
  request_timeout tx w1 s t =
      let gone = lookup-erase id id (await tx w1).0.pending_requests in (ground arith, ground arith)

  finish_ok :
      (outcome : Awaited) (w2 w' : World) (r : R)
      → finish_request serde ciphers read id outcome w2 ≡ (w', ok r)
      → (v : Value) × (outcome ≡ received v)
        × (w2 ≡ w')
        × (is_rejection (serde.code_of v) ≡ false)
        × (read v ≡ some r)
  unfolding finish_request
  finish_ok (received v) w2 w' r e = (v, refl, ground arith, ground arith, ground arith)
  finish_ok closed w2 w' r e = absurd (ground arith)
  finish_ok elapsed w2 w' r e = absurd (ground arith)

  -- A request succeeds only with what its own channel delivered, and only if that has not the code
  -- -32000 and reads as the expected type.
  pub request_ok :
      (w' : World) (r : R)
      → run ≡ (w', ok r)
      → (tx : ℕ) × (w1 : World) × (v : Value) × (start ≡ (w1, ok tx))
        × (await tx w1 ≡ (w', received v))
        × (is_rejection (serde.code_of v) ≡ false)
        × (read v ≡ some r)
  unfolding json_rpc_request
  request_ok w' r e =
      let (w1, tx, s, rest) = continue-eq-ok start _ e in
      let (v, got, same, accepted, reads) =
        finish_ok (await tx w1).1 (await tx w1).0 w' r (ground arith) in
      (tx, w1, v, s, ground arith, accepted, reads)

  -- A request under the limit whose parameters do not serialise fails, and stays in the map: the
  -- slot that it took is lost.
  request_leaks :
      length w.pending_requests < w.pending_requests_limit
      → write (new_request id method params) ≡ none
      → (run.1 ≡ err serialization) × (lookup id run.0.pending_requests ≡ some w.next_oneshot)
  unfolding json_rpc_request
  request_leaks room e = let there = register_pending id id w in (ground arith, ground arith)

  -- The map never outgrows its limit by one request after another.
  pub start_bound :
      length w.pending_requests ≤ w.pending_requests_limit
      → (length start.0.pending_requests ≤ start.0.pending_requests_limit)
        × (start.0.pending_requests_limit ≡ w.pending_requests_limit)
  unfolding start_request enqueue settle open_oneshot
  start_bound h =
      let rest = register-Rest id w in
      let grown = register_size id w in
      let v = serde.text_to_value queue_error in
      let less = answer_size id v (register id w) in
      let kept = answer_limit id v (register id w) in (ground arith, ground arith)

  -- If the writer task is gone, a request under the limit fails at once, is no longer pending, and its
  -- channel got the error.
  pub request_queue_closed :
      (body : Text)
      → IsSound ciphers
      → length w.session.info.key.raw ≡ 32
      → length iv ≡ 16
      → length w.pending_requests < w.pending_requests_limit
      → w.queue_open ≡ false
      → write (new_request id method params) ≡ some body
      → ((msg : SocketMessage) → (b : Bytes) × (serde.write_socket_message msg ≡ some b))
      → (run.1 ≡ err queue_closed)
        × (lookup id run.0.pending_requests ≡ none)
        × (run.0.oneshots w.next_oneshot ≡ sent (serde.text_to_value queue_error))
  unfolding json_rpc_request
  request_queue_closed body sound hk hv room shut e msg =
      let (p, sealed, reads) =
        open_sealed-seal ciphers w.session.info.key.raw iv body sound hk hv in
      let rest = register-Rest id w in
      let (b, written) = msg (record {
        topic = unwrap_or w.session.info.peer_id w.session.info.handshake_topic;
        kind = publish;
        payload = some p;
        silent = true;
      }) in
      let there = register_pending id id w in
      let v = serde.text_to_value queue_error in
      let world : run.0 ≡ answer id v (register id w) = ground arith in
      elim (answer-Takes id v (register id w)) [
        | inl (missing, same) ↦ absurd (ground arith)
        | inr t ↦
            let pending = t.pending_after id in
            let channel = t.oneshots_after t.channel in
            let held = t.was_pending in
            (ground arith, rw world (ground arith), rw world (ground arith))
      ]
