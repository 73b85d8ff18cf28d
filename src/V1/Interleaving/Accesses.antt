-- ===== src/V1/Interleaving/Accesses.antt =====
-- What each task of WalletConnect 1.0 may send to the channel of one request.
use play_cpp_sdk.Prelude.{
  ℕ, ◌≡◌, refl, ap, inl, inr, true, false, Bool, Option, none, some, List, [], ◌∷◌, ◌++◌, arith,
  Option-cases, Bool-cases, unwrap_or,
}
use play_cpp_sdk.Prelude.Text.{Bytes}
use play_cpp_sdk.V1.Protocol.{
  Value, Topic, SocketMessage, Response, response, session_update_request, into_value,
}
use play_cpp_sdk.V1.Crypto.{Ciphers, Key}
use play_cpp_sdk.V1.Context.{Serde, World, sent, dropped, take_pending, answer, enqueue}
use play_cpp_sdk.V1.Socket.{
  handle_response, handle, send_socket_msg, check_socket_msg, queue_error, bridge_error,
}
use play_cpp_sdk.V1.Tasks.{read_frame, write_next, write_frame}
use play_cpp_sdk.V1.Tasks.Laws.{read_frame_world}
use play_cpp_sdk.V1.Interleaving.Guarantees.{update_request-Same, Same-refl}
use play_cpp_sdk.V1.Interleaving.Owned.{
  IsOwned, Sends, Sends-map, Same-Sends, take-Sends, answer-Sends,
}

-- A frame that answers the request `id` with `v`: the key opens it, and it holds a response with the id.
pub record IsAnswer (serde : Serde) (ciphers : Ciphers) (id : ℕ) (v : Value) (key : Key)
    (frame : Bytes) : Type 0 where
  pub topic : Topic
  pub decrypted : Bytes
  pub resp : Response Value
  pub opens : check_socket_msg serde ciphers frame key ≡ some (topic, decrypted)
  pub reads : serde.read_bridge_msg decrypted ≡ some (response resp)
  pub same_id : resp.id ≡ id
  pub holds : into_value serde.error_to_value resp.outcome ≡ some v

module _ (serde : Serde) (ciphers : Ciphers) (id ch : ℕ) (v : Value) where
  -- What a response may send.
  abbrev Responds : Response Value → Type 0
  Responds resp = (resp.id ≡ id) × (into_value serde.error_to_value resp.outcome ≡ some v)

  handle_response-Sends :
      (resp : Response Value) (w : World)
      → IsOwned id ch w
      → Sends id ch v (Responds resp) w (handle_response serde ciphers resp w)
  unfolding handle_response
  handle_response-Sends resp w o =
      elim (Option-cases (into_value serde.error_to_value resp.outcome)) [
        | inl e ↦
            let same : handle_response serde ciphers resp w
                ≡ unwrap_or (take_pending resp.id dropped w) w =
              ground arith in
            rw same (
              Sends-map id ch v _ (Responds resp) w _ (λ (i, d). absurd (ground arith))
                (take-Sends id ch v resp.id dropped w o))
        | inr (u, e) ↦
            let same : handle_response serde ciphers resp w
                ≡ unwrap_or (take_pending resp.id (sent u) w) w =
              ground arith in
            rw same (
              Sends-map id ch v _ (Responds resp) w _ (λ (i, d). (i, ground arith))
                (take-Sends id ch v resp.id (sent u) w o))
      ]

  handle-Sends :
      (topic : Topic) (payload : Bytes) (w : World)
      → IsOwned id ch w
      → Sends id ch v
          ((resp : Response Value) × (serde.read_bridge_msg payload ≡ some (response resp))
            × Responds resp)
          w
          (handle serde ciphers topic payload w).0
  unfolding handle
  handle-Sends topic payload w o = elim (Option-cases (serde.read_bridge_msg payload)) [
    | inl e ↦ rw (e, handle) (Same-Sends id ch v _ w w (Same-refl w) o)
    | inr (response resp, e) ↦
        rw (e, handle)
          (Sends-map id ch v (Responds resp) _ w _ (λ r. (resp, refl, r))
            (handle_response-Sends resp w o))
    | inr (session_update_request req, e) ↦
        rw (e, handle)
          (Same-Sends id ch v _ w _ (update_request-Same serde ciphers req.method req.params w) o)
  ]

  pub read_frame-Sends :
      (key : Key) (frame : Bytes) (w : World)
      → IsOwned id ch w
      → Sends id ch v
          (IsAnswer serde ciphers id v key frame)
          w
          (read_frame serde ciphers key frame w).0
  read_frame-Sends key frame w o = elim (Option-cases (check_socket_msg serde ciphers frame key)) [
    | inl e ↦ unfold read_frame in rw (e, read_frame) (Same-Sends id ch v _ w w (Same-refl w) o)
    | inr ((topic, decrypted), e) ↦
        rw (read_frame_world serde ciphers key frame w topic decrypted e) (
          Sends-map id ch v _ _ w _
            (λ (resp, reads, (i, u)). record {
              topic = topic;
              decrypted = decrypted;
              resp = resp;
              opens = e;
              reads = reads;
              same_id = i;
              holds = u;
            })
            (handle-Sends topic decrypted w o))
  ]

  pub send_socket_msg-Sends :
      (j : ℕ) (msg : SocketMessage) (w : World)
      → IsOwned id ch w
      → Sends id ch v
          ((j ≡ id) × (serde.text_to_value queue_error ≡ v))
          w
          (send_socket_msg serde ciphers j msg w).0
  unfolding send_socket_msg enqueue
  send_socket_msg-Sends j msg w o = elim (Option-cases (serde.write_socket_message msg)) [
    | inl e ↦ rw (e, send_socket_msg) (Same-Sends id ch v _ w w (Same-refl w) o)
    | inr (bytes, e) ↦ elim (Bool-cases w.queue_open) [
      | inl opened ↦
          let queued : (send_socket_msg serde ciphers j msg w).0 ≡ enqueue (some j) bytes w =
            ground arith in
          rw queued (
            Same-Sends id ch v _ w (record w { queue = w.queue ++ (some j, bytes) ∷ [] })
              (record { pending = refl; oneshots = refl; next = refl }) o)
      | inr shut ↦
          let u = serde.text_to_value queue_error in
          let answers : (send_socket_msg serde ciphers j msg w).0 ≡ answer j u w = ground arith in
          rw answers (answer-Sends id ch v j u w o)
    ]
  ]

  write_frame-Sends :
      (delivered : Bool) (mid : Option ℕ) (w : World)
      → IsOwned id ch w
      → Sends id ch v
          ((mid ≡ some id) × (serde.text_to_value bridge_error ≡ v))
          w
          (write_frame serde ciphers delivered mid w)
  unfolding write_frame
  write_frame-Sends false (some j) w o =
      Sends-map id ch v _ _ w _ (λ (i, e). (ap (λ x. some x) i, e))
        (answer-Sends id ch v j (serde.text_to_value bridge_error) w o)
  write_frame-Sends false none w o = Same-Sends id ch v _ w w (Same-refl w) o
  write_frame-Sends true (some j) w o = Same-Sends id ch v _ w w (Same-refl w) o
  write_frame-Sends true none w o = Same-Sends id ch v _ w w (Same-refl w) o

  abbrev pub Unwritten : Type 0
  Unwritten = serde.text_to_value bridge_error ≡ v

  pub write_next-Sends :
      (q : List (Option ℕ × Bytes)) (delivered : Bool) (x : Bytes) (w w' : World)
      → w.queue ≡ q
      → IsOwned id ch w
      → write_next serde ciphers delivered w ≡ some (x, w')
      → Sends id ch v Unwritten w w'
  unfolding write_next
  write_next-Sends [] delivered x w w' shape o e = absurd (ground arith)
  write_next-Sends ((mid, y) ∷ rest) delivered x w w' shape o e =
      let popped : World = record w { queue = rest } in
      let becomes : w' ≡ write_frame serde ciphers delivered mid popped = ground arith in
      let owned : IsOwned id ch popped = record { opened = o.opened; only = λ j p. o.only j p } in
      rw becomes (
        Sends-map id ch v _ Unwritten popped _ (λ (m, u). u)
          (write_frame-Sends delivered mid popped owned))
