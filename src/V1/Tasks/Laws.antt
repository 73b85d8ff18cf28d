-- ===== src/V1/Tasks/Laws.antt =====
-- What the reader and the writer do to the pending requests and to the queue.
use play_cpp_sdk.Prelude.{
  ℕ, ◌≡◌, refl, ◌⊎◌, inl, inr, false, Option, none, some, List, [], ◌∷◌, arith, Option-cases,
}
use play_cpp_sdk.Prelude.Text.{Text, Bytes}
use play_cpp_sdk.Prelude.Assoc.{lookup, lookup-erase}
use play_cpp_sdk.Rust.Effect.{Result, ok, err, panic, continue, modify}
use play_cpp_sdk.V1.Protocol.{Topic, SessionUpdate, response, session_update_request}
use play_cpp_sdk.V1.Crypto.{Ciphers, Key}
use play_cpp_sdk.V1.Context.{
  Serde, Error, World, sent, take_pending, answer, remove_pending, settle, set_oneshot,
}
use play_cpp_sdk.V1.Socket.{handle, update_request, update_session, check_socket_msg, bridge_error}
use play_cpp_sdk.V1.Tasks.{read_frame, send_back, write_next}

-- A handler's result that sends nothing back.
abbrev IsSilent : World × Result Error (Option Bytes) → Type 0
IsSilent r = (r.1 ≡ ok none) ⊎ (r.1 ≡ panic)

module _ (serde : Serde) (ciphers : Ciphers) where
  update_request-IsSilent :
      (method : Text) (ups : List SessionUpdate) (w : World)
      → IsSilent (update_request serde ciphers method ups w)
  unfolding update_request update_session
  update_request-IsSilent method [] w = inl refl
  update_request-IsSilent method (up ∷ []) w = ground arith
  update_request-IsSilent method (up ∷ v ∷ ups) w = inl refl

  handle-IsSilent :
      (topic : Topic) (payload : Bytes) (w : World)
      → IsSilent (handle serde ciphers topic payload w)
  unfolding handle
  handle-IsSilent topic payload w = elim (Option-cases (serde.read_bridge_msg payload)) [
    | inl e ↦ rw (e, handle) (inl refl)
    | inr (response resp, e) ↦ rw (e, handle) (inl refl)
    | inr (session_update_request req, e) ↦
        rw (e, handle) (update_request-IsSilent req.method req.params w)
  ]

  continue_silent :
      (r : World × Result Error (Option Bytes))
      → IsSilent r
      → (continue r (λ resp. modify {E = Error} (send_back serde ciphers resp))).0 ≡ r.0
  continue_silent (w, ok none) s = refl
  continue_silent (w, ok (some b)) s = absurd (ground arith)
  continue_silent (w, err e) s = refl
  continue_silent (w, panic) s = refl

  -- A frame does to the client what the handler does to the message in it, and nothing else.
  pub read_frame_world :
      (key : Key) (frame : Bytes) (w : World) (topic : Topic) (decrypted : Bytes)
      → check_socket_msg serde ciphers frame key ≡ some (topic, decrypted)
      → (read_frame serde ciphers key frame w).0 ≡ (handle serde ciphers topic decrypted w).0
  unfolding read_frame
  read_frame_world key frame w topic decrypted e =
      rw (e, read_frame)
        (continue_silent (handle serde ciphers topic decrypted w)
          (handle-IsSilent topic decrypted w))

  -- When the websocket refuses the oldest message of the queue and that belongs to a pending request,
  -- the request is answered with an error at once: its channel gets it, and it is no longer pending.
  pub write_next_refused :
      (w : World) (id ch : ℕ) (x : Bytes) (rest : List (Option ℕ × Bytes))
      → w.queue ≡ (some id, x) ∷ rest
      → lookup id w.pending_requests ≡ some ch
      → (w' : World) × (write_next serde ciphers false w ≡ some (x, w'))
        × (w'.oneshots ch ≡ sent (serde.text_to_value bridge_error))
        × (lookup id w'.pending_requests ≡ none)
        × (w'.queue ≡ rest)
  unfolding write_next take_pending answer remove_pending settle set_oneshot
  write_next_refused w id ch x rest shape there =
      let popped : World = record w { queue = rest } in
      let gone = lookup-erase id id w.pending_requests in
      (
        answer id (serde.text_to_value bridge_error) popped,
        ground arith,
        ground arith,
        ground arith,
        ground arith,
      )
