-- ===== src/V2/Dispatch/Takeover.antt =====
-- A response to the proposal that nobody asked for.
use play_cpp_sdk.Prelude.{
  ◌≡◌, ◌≢◌, ap, ◌∙◌, Bool, true, some, [], ◌∷◌, ◌++◌, arith, Option-cases, inl, inr,
}
use play_cpp_sdk.Prelude.Text.{Text, Bytes, text_eq_iff}
use play_cpp_sdk.Prelude.Assoc.{lookup}
use play_cpp_sdk.Rust.Effect.{ok}
use play_cpp_sdk.Hex.{Hex}
use play_cpp_sdk.V1.Protocol.{Value, Topic, Response, success, into_result}
use play_cpp_sdk.V1.Crypto.{Key}
use play_cpp_sdk.V2.Crypto.{Ciphers, decode_decrypt, derive_symkey_topic}
use play_cpp_sdk.V2.Protocol.{WcSessionProposeResponse}
use play_cpp_sdk.V2.Context.{Serde, World, subscribe}
use play_cpp_sdk.V2.Handlers.{handle_session_proposal_response, apply_proposal, accept_proposal}
use play_cpp_sdk.V2.Dispatch.{message_received, handle_proposal}
use play_cpp_sdk.V2.Dispatch.Topics.{message_received_stranger}

module _ (serde : Serde) (ciphers : Ciphers) (hex : Hex) (has_callback : Bool) where
  -- The state that a readable response to the proposal leaves.
  responded :
      (nonce : Bytes) (message : Text) (plain : Bytes)
      (response : Response WcSessionProposeResponse) (r : WcSessionProposeResponse) (value : Value)
      (t : Topic) (key : Key) (w : World)
      → decode_decrypt ciphers w.session.session_proposal_symkey message ≡ ok plain
      → serde.read_propose_response plain ≡ some response
      → serde.propose_response_to_value response ≡ some value
      → response.outcome ≡ success r
      → derive_symkey_topic ciphers hex r.responder_public_key w.session.client_secret_key
        ≡ some (t, key)
      → w.queue_open ≡ true
      → ((message_received serde ciphers hex nonce has_callback w.session.session_proposal_topic
            message w).0.session
          ≡ record w.session { pairing_topic_symkey = some (t, key) })
        × ((message_received serde ciphers hex nonce has_callback w.session.session_proposal_topic
              message w).0.queue
            ≡ w.queue ++ subscribe t ∷ [])
  unfolding message_received handle_proposal handle_session_proposal_response apply_proposal
      accept_proposal into_result
  responded nonce message plain response r value t key w decrypts reads writes accepted derives
        opened =
      let same = text_eq_iff w.session.session_proposal_topic w.session.session_proposal_topic in
      elim (Option-cases (lookup response.id w.pending_requests)) [
        | inl asked ↦ (ground arith, ground arith)
        | inr (ch, asked) ↦ (ground arith, ground arith)
      ]

  -- Whatever requests are pending, and also if the session is connected: an accepting response to the
  -- proposal, under the proposal's key on the proposal's topic, whose key derives, replaces the
  -- pairing, changes nothing else of the session, and subscribes to the new topic. From then on, what
  -- the wallet sends on the topic that it was paired on is ignored, for a topic that is neither the
  -- proposal's nor the new one; the queue takes messages.
  pub proposal_response_replaces :
      (nonce nonce' : Bytes) (message later : Text) (plain : Bytes)
      (response : Response WcSessionProposeResponse) (r : WcSessionProposeResponse) (value : Value)
      (t old : Topic) (key : Key) (w : World)
      → decode_decrypt ciphers w.session.session_proposal_symkey message ≡ ok plain
      → serde.read_propose_response plain ≡ some response
      → serde.propose_response_to_value response ≡ some value
      → response.outcome ≡ success r
      → derive_symkey_topic ciphers hex r.responder_public_key w.session.client_secret_key
        ≡ some (t, key)
      → w.queue_open ≡ true
      → old ≢ w.session.session_proposal_topic
      → old ≢ t
      → let w' =
          (message_received serde ciphers hex nonce has_callback w.session.session_proposal_topic
            message w).0 in
        (w'.session ≡ record w.session { pairing_topic_symkey = some (t, key) })
        × (w'.queue ≡ w.queue ++ subscribe t ∷ [])
        × (message_received serde ciphers hex nonce' has_callback old later w' ≡ (w', ok tt))
  proposal_response_replaces nonce nonce' message later plain response r value t old key w decrypts
        reads writes accepted derives opened other_proposal other_pairing =
      let (session, queue) =
        responded nonce message plain response r value t key w decrypts reads writes accepted
          derives opened in
      (
        session,
        queue,
        message_received_stranger serde ciphers hex nonce' has_callback old later t key _
            (ap (λ s. s.pairing_topic_symkey) session)
            (λ e. other_proposal (e ∙ ap (λ s. s.session_proposal_topic) session)) other_pairing,
      )
