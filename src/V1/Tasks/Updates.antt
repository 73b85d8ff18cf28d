-- ===== src/V1/Tasks/Updates.antt =====
-- What the reader makes of the session, against the updates in the frames that it reads.
use play_cpp_sdk.Prelude.{
  ℕ, ◌≡◌, refl, sym, ap, ◌∙◌, Option, none, some, List, [], ◌∷◌, arith, if◌then◌else◌, Option-cases,
  Bool-cases, inl, inr, unwrap_or,
}
use play_cpp_sdk.Prelude.Text.{Text, Bytes, text_eq, codes}
use play_cpp_sdk.Prelude.Assoc.{lookup}
use play_cpp_sdk.Rust.Effect.{ok, continue-eq-ok, then-pure}
use play_cpp_sdk.V1.Protocol.{
  Value, Topic, Response, SessionUpdate, BridgeServerMsg, response, session_update_request,
  into_value,
}
use play_cpp_sdk.V1.Crypto.{Ciphers, Key}
use play_cpp_sdk.V1.Session.{Session, update_params}
use play_cpp_sdk.V1.Session
use play_cpp_sdk.V1.Context.{Serde, World, Oneshot, sent, dropped, take_pending, with_session}
use play_cpp_sdk.V1.Socket.{
  handle, handle_response, update_request, update_session, check_socket_msg,
}
use play_cpp_sdk.V1.Tasks.{read_frame, read_frames}
use play_cpp_sdk.V1.Tasks.Laws.{read_frame_world}

module _ (serde : Serde) (ciphers : Ciphers) where
  -- The update that a method asks for, with its parameters.
  abbrev pub asked : Text → List SessionUpdate → Option SessionUpdate
  asked method [] = none
  asked method (up ∷ []) = if text_eq method (codes "wc_sessionUpdate") then some up else none
  asked method (up ∷ v ∷ ups) = none

  abbrev pub update_of : BridgeServerMsg → Option SessionUpdate
  update_of (response resp) = none
  update_of (session_update_request req) = asked req.method req.params

  abbrev pub read_update : Topic × Bytes → Option SessionUpdate
  read_update (topic, decrypted) = elim (serde.read_bridge_msg decrypted) [
    | none ↦ none
    | some msg ↦ update_of msg
  ]

  -- The update in a frame: its tag is that of its bytes under the key, and it holds the request of the wallet.
  abbrev pub update_in : Key → Bytes → Option SessionUpdate
  update_in key frame = elim (check_socket_msg serde ciphers frame key) [
    | none ↦ none
    | some p ↦ read_update p
  ]

  abbrev pub updated : Session → Option SessionUpdate → Session
  updated s none = s
  updated s (some up) = update_params s up

  -- The session after the updates in the frames up to the end of the stream.
  abbrev pub updated_by : Key → List (Option Bytes) → Session → Session
  updated_by key [] s = s
  updated_by key (none ∷ frames) s = s
  updated_by key (some frame ∷ frames) s = updated_by key frames (updated s (update_in key frame))

  taken-session :
      (id : ℕ) (state : Oneshot) (w : World)
      → (unwrap_or (take_pending id state w) w).session ≡ w.session
  unfolding take_pending
  taken-session id state w = elim (Option-cases (lookup id w.pending_requests)) [
    | inl bad ↦ ground arith
    | inr (ch, good) ↦ ground arith
  ]

  response-session :
      (resp : Response Value) (w : World)
      → (handle_response serde ciphers resp w).session ≡ w.session
  unfolding handle_response
  response-session resp w = elim (Option-cases (into_value serde.error_to_value resp.outcome)) [
    | inl bad ↦ rw (handle_response, bad) (taken-session resp.id dropped w)
    | inr (v, value) ↦ rw (handle_response, value) (taken-session resp.id (sent v) w)
  ]

  update_session-session :
      (up : SessionUpdate) (w : World)
      → (update_session serde ciphers up w).0.session ≡ update_params w.session up
  unfolding update_session with_session Session.update
  update_session-session up w = ground arith

  request-session :
      (method : Text) (ups : List SessionUpdate) (w : World)
      → (update_request serde ciphers method ups w).0.session ≡ updated w.session (asked method ups)
  unfolding update_request
  request-session method [] w = refl
  request-session method (up ∷ []) w =
      elim (Bool-cases (text_eq method (codes "wc_sessionUpdate"))) [
        | inl named ↦
            rw (update_request, named)
              (ap (λ v. v.session) (then-pure (update_session serde ciphers up) (λ u. none) w)
                ∙ update_session-session up w)
        | inr other ↦ rw (update_request, other) refl
      ]
  request-session method (up ∷ v ∷ ups) w = refl

  handle-session :
      (topic : Topic) (decrypted : Bytes) (w : World)
      → (handle serde ciphers topic decrypted w).0.session
        ≡ updated w.session (read_update (topic, decrypted))
  unfolding handle
  handle-session topic decrypted w = elim (Option-cases (serde.read_bridge_msg decrypted)) [
    | inl bad ↦ rw (handle, read_update, bad) refl
    | inr (response resp, e) ↦ rw (handle, read_update, e) (response-session resp w)
    | inr (session_update_request req, e) ↦
        rw (handle, read_update, e) (request-session req.method req.params w)
  ]

  frame-session :
      (key : Key) (frame : Bytes) (w : World)
      → (read_frame serde ciphers key frame w).0.session ≡ updated w.session (update_in key frame)
  unfolding read_frame
  frame-session key frame w = elim (Option-cases (check_socket_msg serde ciphers frame key)) [
    | inl bad ↦ rw (read_frame, update_in, bad) refl
    | inr ((topic, decrypted), e) ↦
        ap (λ v. v.session) (read_frame_world serde ciphers key frame w topic decrypted e)
        ∙ rw (update_in, e) (handle-session topic decrypted w)
  ]

  -- The reader, over the frames of a stream that it reads to the end, changes the session by the updates in
  -- the frames, one after the other, and by nothing else: an update is in a frame that is published with
  -- a tag of its own bytes under the client's key, and asks for it by the method's name with one
  -- parameter. Answers to requests, and all other frames, leave the session as it is.
  pub read_frames-session :
      (key : Key) (frames : List (Option Bytes)) (w w' : World)
      → read_frames serde ciphers key frames w ≡ (w', ok tt)
      → w'.session ≡ updated_by key frames w.session
  unfolding read_frames
  read_frames-session key [] w w' done = ground arith
  read_frames-session key (none ∷ frames) w w' done = ground arith
  read_frames-session key (some frame ∷ frames) w w' done =
      let (v, u, first, rest) = continue-eq-ok (read_frame serde ciphers key frame w) _ done in
      let here = frame-session key frame w in
      let same : v.session ≡ updated w.session (update_in key frame) = ground arith in
      rw (sym same) (read_frames-session key frames v w' rest)
