-- ===== src/V1/Socket/Delivery.antt =====
-- To whom a received message goes.
use play_cpp_sdk.Prelude.{
  ℕ, ◌≡◌, ◌≢◌, refl, Option, none, some, List, [], ◌∷◌, arith, if◌then◌else◌, ◌==◌, Option-cases,
  ◌⊎◌, inl, inr, length,
}
use play_cpp_sdk.Prelude.Text.{Text, Bytes, text_eq, text_eq_iff, codes}
use play_cpp_sdk.Prelude.Assoc.{lookup, lookup-erase}
use play_cpp_sdk.Rust.Effect.{ok}
use play_cpp_sdk.V1.Protocol.{
  Value, Topic, Response, SessionUpdate, RequestSessionUpdate, session_update_request, into_value,
  SocketMessage, SocketMessageKind, publish, subscribe, EncryptionPayload,
}
use play_cpp_sdk.V1.Crypto.{Ciphers, Key, hmac_sha256, open_sealed}
use play_cpp_sdk.V1.Crypto.Laws.{open_sealed_ok}
use play_cpp_sdk.V1.Session
use play_cpp_sdk.V1.Context.{
  Serde, World, Oneshot, sent, dropped, take_pending, remove_pending, settle, set_oneshot,
  with_session,
}
use play_cpp_sdk.V1.Socket.{
  checked, handle_response, handle, update_request, update_session, check_socket_msg,
}

-- What a response does to the channel of its request.
abbrev pub reply : Option Value → Oneshot
reply none = dropped
reply (some v) = sent v

abbrev pub replied : Option ℕ → Oneshot → ℕ → Oneshot → Oneshot
replied none state c old = old
replied (some ch) state c old = if c == ch then state else old

module _ (serde : Serde) (ciphers : Ciphers) where
  -- A response goes to the channel of the request with its id, if that is pending, and to no other: the
  -- channel gets the result (or the error as a value), and is dropped if the error is no value. The
  -- id is then no longer pending, and all other ids are as before. A response to no pending request
  -- changes nothing.
  pub handle_response_routes :
      (resp : Response Value) (w : World)
      → let w' = handle_response serde ciphers resp w in
        let state = reply (into_value serde.error_to_value resp.outcome) in
        ((c : ℕ)
          → w'.oneshots c ≡ replied (lookup resp.id w.pending_requests) state c (w.oneshots c))
        × ((j : ℕ)
            → lookup j w'.pending_requests
              ≡ (if resp.id == j then none else lookup j w.pending_requests))
        × (w'.session ≡ w.session)
        × (w'.queue ≡ w.queue)
  unfolding handle_response take_pending remove_pending settle set_oneshot
  handle_response_routes resp w =
      elim (Option-cases (into_value serde.error_to_value resp.outcome)) [
        | inl bad ↦ (
          (λ c. ground arith),
          (λ j. ground (arith, lookup-erase j resp.id w.pending_requests)),
          ground arith,
          ground arith,
        )
        | inr (v, good) ↦ (
          (λ c. ground arith),
          (λ j. ground (arith, lookup-erase j resp.id w.pending_requests)),
          ground arith,
          ground arith,
        )
      ]

  ignored :
      (method : Text) (ups : List SessionUpdate) (w : World)
      → (method ≢ codes "wc_sessionUpdate") ⊎ (length ups ≢ 1)
      → update_request serde ciphers method ups w ≡ (w, ok none)
  unfolding update_request
  ignored method [] w other = refl
  ignored method (up ∷ []) w other = ground (arith, text_eq_iff method (codes "wc_sessionUpdate"))
  ignored method (up ∷ v ∷ ups) w other = refl

  -- A message that is a session update of the wallet with one parameter is applied to the session;
  -- the requests, their channels and the queue stay as they are.
  pub handle_update :
      (topic : Topic) (payload : Bytes) (req : RequestSessionUpdate) (up : SessionUpdate)
      (w : World)
      → serde.read_bridge_msg payload ≡ some (session_update_request req)
      → req.params ≡ up ∷ []
      → req.method ≡ codes "wc_sessionUpdate"
      → let w' = (handle serde ciphers topic payload w).0 in
        (w'.session ≡ (Session.update w.session up w.callbacks).0)
        × (w'.pending_requests ≡ w.pending_requests)
        × (w'.oneshots ≡ w.oneshots)
        × (w'.queue ≡ w.queue)
  unfolding handle update_request update_session with_session text_eq
  handle_update topic payload req up w e one named =
      (ground arith, ground arith, ground arith, ground arith)

  -- Any other request of the wallet changes nothing: one of another method, or one that does not have
  -- exactly one parameter.
  pub handle_ignores :
      (topic : Topic) (payload : Bytes) (req : RequestSessionUpdate) (w : World)
      → serde.read_bridge_msg payload ≡ some (session_update_request req)
      → (req.method ≢ codes "wc_sessionUpdate") ⊎ (length req.params ≢ 1)
      → handle serde ciphers topic payload w ≡ (w, ok none)
  unfolding handle
  handle_ignores topic payload req w e other =
      rw (e, handle) (ignored req.method req.params w other)

  checked_sound :
      (key : Key) (kind : SocketMessageKind) (t : Topic) (payload : Option EncryptionPayload)
      (topic : Topic) (decrypted : Bytes)
      → checked serde ciphers key kind t payload ≡ some (topic, decrypted)
      → (p : EncryptionPayload) × (kind ≡ publish)
        × (t ≡ topic)
        × (payload ≡ some p)
        × (open_sealed ciphers key.raw p ≡ ok decrypted)
  unfolding checked
  checked_sound key publish t (some p) topic decrypted e =
      (p, refl, ground arith, refl, ground arith)
  checked_sound key publish t none topic decrypted e = absurd (ground arith)
  checked_sound key subscribe t payload topic decrypted e = absurd (ground arith)

  -- Only a published message whose payload carries the HMAC of its data under the client's key is ever
  -- handled, and what is handled is its plaintext.
  pub check_socket_msg_sound :
      (mmsg : Bytes) (key : Key) (topic : Topic) (decrypted : Bytes)
      → check_socket_msg serde ciphers mmsg key ≡ some (topic, decrypted)
      → (msg : SocketMessage) × (p : EncryptionPayload) × (serde.read_socket_message mmsg
          ≡ some msg)
        × (msg.kind ≡ publish)
        × (msg.topic ≡ topic)
        × (msg.payload ≡ some p)
        × (hmac_sha256 ciphers key.raw p.iv p.encrypted ≡ p.hmac)
        × (open_sealed ciphers key.raw p ≡ ok decrypted)
  unfolding check_socket_msg
  check_socket_msg_sound mmsg key topic decrypted e =
      elim (Option-cases (serde.read_socket_message mmsg)) [
        | inl bad ↦ absurd (ground arith)
        | inr (msg, good) ↦
            let (p, kind, same, payload, reads) =
              checked_sound key msg.kind msg.topic msg.payload topic decrypted (ground arith) in
            let (tag, _) = open_sealed_ok ciphers key.raw p decrypted reads in
            (msg, p, good, kind, same, payload, tag, reads)
      ]
