-- ===== src/V1/Interleaving/Guarantees.antt =====
-- What each access to the shared state keeps of the pending requests and their channels.
use play_cpp_sdk.Prelude.{
  ℕ, ◌≡◌, ◌≢◌, refl, ◌⊎◌, inl, inr, Bool, true, false, Option, none, some, List, [], ◌∷◌, ◌++◌,
  arith, Option-cases, Bool-cases, unwrap_or,
}
use play_cpp_sdk.Prelude.Text.{Text, Bytes, text_eq, codes}
use play_cpp_sdk.Rust.Effect.{then-pure}
use play_cpp_sdk.V1.Protocol.{
  Value, Topic, SocketMessage, SessionParams, SessionUpdate, Response, response,
  session_update_request, into_value,
}
use play_cpp_sdk.V1.Crypto.{Ciphers, Key}
use play_cpp_sdk.V1.Context.{
  Serde, World, Oneshot, waiting, sent, dropped, open_oneshot, settle, remove_pending, take_pending,
  answer, enqueue, with_session,
}
use play_cpp_sdk.V1.Context.Pending.{
  IsLinked, Keeps, Same, take_pending-Takes, Takes-IsLinked, Takes-Keeps, Same-IsLinked, Same-Keeps,
  Keeps-trans, answer-Takes, refused-IsLinked, refused-Keeps, removed-IsLinked, removed-Keeps,
}
use play_cpp_sdk.V1.Socket.{
  update_request, handle_response, handle, update_session, send_socket_msg, check_socket_msg,
  queue_error,
}
use play_cpp_sdk.V1.Handshake.{apply_session}
use play_cpp_sdk.V1.Tasks.Laws.{read_frame_world}
use play_cpp_sdk.V1.Tasks.{read_frame, write_next, write_frame}

abbrev pub Tracks : World → World → Type 0
Tracks w w' = IsLinked w' × Keeps w w'

pub Same-Tracks : (w w' : World) → IsLinked w → Same w w' → Tracks w w'
Same-Tracks w w' l s = (Same-IsLinked w w' s l, Same-Keeps w w' s)

pub Same-refl : (w : World) → Same w w
Same-refl w = record { pending = refl; oneshots = refl; next = refl }

pub Tracks-refl : (w : World) → IsLinked w → Tracks w w
Tracks-refl w l = Same-Tracks w w l (Same-refl w)

pub Tracks-trans : (u v w : World) → Tracks u v → Tracks v w → Tracks u w
Tracks-trans u v w p q = (q.0, Keeps-trans u v w p.1 q.1)

Tracks-queue :
    (w : World) (q : List (Option ℕ × Bytes)) → IsLinked w → Tracks w (record w { queue = q })
Tracks-queue w q l = Same-Tracks w _ l (record { pending = refl; oneshots = refl; next = refl })

take-Tracks :
    (id : ℕ) (state : Oneshot) (w : World)
    → state ≢ waiting
    → IsLinked w
    → Tracks w (unwrap_or (take_pending id state w) w)
take-Tracks id state w used l = elim (Option-cases (take_pending id state w)) [
  | inl e ↦ rw e (Tracks-refl w l)
  | inr (w', e) ↦
      let t = take_pending-Takes id state w w' e in
      rw e (Takes-IsLinked id state w w' used t l, Takes-Keeps id state w w' t l)
]

answer-Tracks : (id : ℕ) (v : Value) (w : World) → IsLinked w → Tracks w (answer id v w)
answer-Tracks id v w l = elim (answer-Takes id v w) [
  | inl (_, same) ↦ rw same (Tracks-refl w l)
  | inr t ↦ (
    Takes-IsLinked id (sent v) w (answer id v w) (λ e. cc) t l,
    Takes-Keeps id (sent v) w (answer id v w) t l,
  )
]

module _ (serde : Serde) (ciphers : Ciphers) where
  handle_response-Tracks :
      (resp : Response Value) (w : World)
      → IsLinked w
      → Tracks w (handle_response serde ciphers resp w)
  unfolding handle_response
  handle_response-Tracks resp w l =
      elim (Option-cases (into_value serde.error_to_value resp.outcome)) [
        | inl e ↦ rw (e, handle_response) (take-Tracks resp.id dropped w (λ e. cc) l)
        | inr (v, e) ↦ rw (e, handle_response) (take-Tracks resp.id (sent v) w (λ e. cc) l)
      ]

  update_session-Same :
      (up : SessionUpdate) (w : World) → Same w (update_session serde ciphers up w).0
  unfolding update_session with_session
  update_session-Same up w = record {
    pending = ground arith;
    oneshots = ground arith;
    next = ground arith;
  }

  pub apply_session-Same :
      (params : SessionParams) (w : World) → Same w (apply_session serde ciphers params w).0
  unfolding apply_session with_session
  apply_session-Same params w = record {
    pending = ground arith;
    oneshots = ground arith;
    next = ground arith;
  }

  -- A received message is a response, or leaves the requests alone.
  abbrev Handled : World → World → Type 0
  Handled w w' = Same w w' ⊎ ((resp : Response Value) × (w' ≡ handle_response serde ciphers resp w))

  pub update_request-Same :
      (method : Text) (ups : List SessionUpdate) (w : World)
      → Same w (update_request serde ciphers method ups w).0
  unfolding update_request
  update_request-Same method [] w = Same-refl w
  update_request-Same method (up ∷ []) w =
      elim (Bool-cases (text_eq method (codes "wc_sessionUpdate"))) [
        | inl yes_update ↦
            rw (yes_update, then-pure (update_session serde ciphers up) (λ _. none) w)
              (update_session-Same up w)
        | inr other ↦ rw other (Same-refl w)
      ]
  update_request-Same method (up ∷ v ∷ ups) w = Same-refl w

  handle-Handled :
      (topic : Topic) (payload : Bytes) (w : World)
      → Handled w (handle serde ciphers topic payload w).0
  unfolding handle
  handle-Handled topic payload w = elim (Option-cases (serde.read_bridge_msg payload)) [
    | inl e ↦ rw (e, handle) (inl (Same-refl w))
    | inr (response resp, e) ↦ rw (e, handle) (inr (resp, refl))
    | inr (session_update_request req, e) ↦
        rw (e, handle) (inl (update_request-Same req.method req.params w))
  ]

  Handled-Tracks : (w w' : World) → IsLinked w → Handled w w' → Tracks w w'
  Handled-Tracks w w' l (inl s) = Same-Tracks w w' l s
  Handled-Tracks w w' l (inr (resp, e)) = rw e (handle_response-Tracks resp w l)

  pub read_frame-Tracks :
      (key : Key) (frame : Bytes) (w : World)
      → IsLinked w
      → Tracks w (read_frame serde ciphers key frame w).0
  read_frame-Tracks key frame w l = elim (Option-cases (check_socket_msg serde ciphers frame key)) [
    | inl e ↦ unfold read_frame in rw (e, read_frame) (Tracks-refl w l)
    | inr ((topic, decrypted), e) ↦
        rw (read_frame_world serde ciphers key frame w topic decrypted e)
          (Handled-Tracks w _ l (handle-Handled topic decrypted w))
  ]

  pub send_socket_msg-Tracks :
      (id : ℕ) (msg : SocketMessage) (w : World)
      → IsLinked w
      → Tracks w (send_socket_msg serde ciphers id msg w).0
  unfolding send_socket_msg enqueue
  send_socket_msg-Tracks id msg w l = elim (Option-cases (serde.write_socket_message msg)) [
    | inl e ↦ rw (e, send_socket_msg) (Tracks-refl w l)
    | inr (bytes, e) ↦ elim (Bool-cases w.queue_open) [
      | inl opened ↦
          let sends : (send_socket_msg serde ciphers id msg w).0 ≡ enqueue (some id) bytes w =
            ground arith in
          rw sends (Tracks-queue w (w.queue ++ (some id, bytes) ∷ []) l)
      | inr shut ↦
          let v = serde.text_to_value queue_error in
          let answers : (send_socket_msg serde ciphers id msg w).0 ≡ answer id v w = ground arith in
          rw answers (answer-Tracks id v w l)
    ]
  ]

  write_frame-Tracks :
      (delivered : Bool) (mid : Option ℕ) (w : World)
      → IsLinked w
      → Tracks w (write_frame serde ciphers delivered mid w)
  unfolding write_frame
  write_frame-Tracks false (some id) w l = answer-Tracks id _ w l
  write_frame-Tracks false none w l = Tracks-refl w l
  write_frame-Tracks true (some id) w l = Tracks-refl w l
  write_frame-Tracks true none w l = Tracks-refl w l

  pub write_next-Tracks :
      (q : List (Option ℕ × Bytes)) (delivered : Bool) (x : Bytes) (w w' : World)
      → w.queue ≡ q
      → IsLinked w
      → write_next serde ciphers delivered w ≡ some (x, w')
      → Tracks w w'
  unfolding write_next
  write_next-Tracks [] delivered x w w' shape l e = absurd (ground arith)
  write_next-Tracks ((mid, y) ∷ rest) delivered x w w' shape l e =
      let popped : World = record w { queue = rest } in
      let t = Tracks-queue w rest l in
      let becomes : w' ≡ write_frame serde ciphers delivered mid popped = ground arith in
      rw becomes (Tracks-trans w popped _ t (write_frame-Tracks delivered mid popped t.0))

  pub refuse-Tracks :
      (w : World) → IsLinked w → Tracks w (settle w.next_oneshot dropped (open_oneshot w))
  refuse-Tracks w l = (refused-IsLinked w l, refused-Keeps w)

  pub expire-Tracks : (id : ℕ) (w : World) → IsLinked w → Tracks w (remove_pending id w)
  expire-Tracks id w l = (removed-IsLinked id w l, removed-Keeps id w)
