-- ===== src/V2/Handlers/Changes.antt =====
-- What each handler of a request of the wallet does to the session.
use play_cpp_sdk.Prelude.{◌≡◌, refl, Bool, true, some, arith, Option-cases, inl, inr, ◌⊎◌}
use play_cpp_sdk.Prelude.Text.{Text, Bytes, codes}
use play_cpp_sdk.Rust.Effect.{Result, ok, err, panic, ◌>>◌, modify, continue}
use play_cpp_sdk.Hex.{Hex}
use play_cpp_sdk.V1.Protocol.{
  Request, Response, new_response, ResponseData, success, failure, into_result,
}
use play_cpp_sdk.V2.Crypto.{Ciphers, derive_symkey_topic}
use play_cpp_sdk.V2.Protocol.{
  WcSessionProposeResponse, WcSessionSettle, WcSessionUpdate, WcSessionDelete,
}
use play_cpp_sdk.V2.Session.{SessionInfo}
use play_cpp_sdk.V2.Session
use play_cpp_sdk.V2.Tag
use play_cpp_sdk.V2.Context.{
  Serde, Error, World, sent, with_session, notify_waiters, send_message, send_response,
}
use play_cpp_sdk.V2.Handlers.Replies.{send_response-session, answered}
use play_cpp_sdk.V2.Handlers.Settled.{take_pending-session}
use play_cpp_sdk.V2.Handlers.{
  accept_proposal, apply_proposal, handle_session_proposal_response, handle_session_settle_request,
  handle_session_delete_request, handle_session_update_request,
}

module _ (serde : Serde) (ciphers : Ciphers) (hex : Hex) where
  -- How a session changes by a request of the wallet with a method and a text.
  pub data Requested (method : Text) (plain : Bytes) (s s' : SessionInfo) : Type 0 where
    stays : s' ≡ s → Requested method plain s s'
    settles :
        (r : Request WcSessionSettle)
        → method ≡ codes "wc_sessionSettle"
        → serde.settle.read plain ≡ some r
        → s' ≡ record (Session.session_settle s r.params) { connected = true }
        → Requested method plain s s'
    updates :
        (r : Request WcSessionUpdate)
        → method ≡ codes "wc_sessionUpdate"
        → serde.update.read plain ≡ some r
        → s' ≡ Session.session_update s r.params
        → Requested method plain s s'
    deletes :
        (r : Request WcSessionDelete)
        → method ≡ codes "wc_sessionDelete"
        → serde.delete.read plain ≡ some r
        → s' ≡ Session.session_delete s
        → Requested method plain s s'

  -- How it changes by the answer to the proposal.
  pub data Proposed (plain : Bytes) (s s' : SessionInfo) : Type 0 where
    unanswered : s' ≡ s → Proposed plain s s'
    pairs :
        (r : Response WcSessionProposeResponse) (accepted : WcSessionProposeResponse)
        → serde.read_propose_response plain ≡ some r
        → r.outcome ≡ success accepted
        → s' ≡ (Session.session_proposal_response ciphers hex s accepted).0
        → Proposed plain s s'

  pub settle_changes :
      (method : Text) (nonce plain : Bytes) (w : World)
      → method ≡ codes "wc_sessionSettle"
      → Requested method plain w.session
          (handle_session_settle_request serde ciphers hex nonce plain w).0.session
  unfolding handle_session_settle_request with_session notify_waiters
  settle_changes method nonce plain w named = elim (Option-cases (serde.settle.read plain)) [
    | inl bad ↦ stays (ground arith)
    | inr (r, reads) ↦
        let same =
          send_response-session serde ciphers hex nonce (new_response r.id true) Tag.settle_response
            w in
        elim (after r
          (send_response serde ciphers nonce (new_response r.id true) Tag.settle_response w) same) [
            | inl kept ↦ stays (ground arith)
            | inr made ↦ settles r named reads (ground arith)
          ]
  ]
    where
      after :
          (r : Request WcSessionSettle) (s : World × Result Error (Unit {0}))
          → s.0.session ≡ w.session
          → ((continue s (λ _.
                modify (λ w.
                  with_session
                    (record (Session.session_settle w.session r.params) { connected = true })
                    w)
                >> modify notify_waiters)).0.session
              ≡ w.session)
            ⊎ ((continue s (λ _.
                  modify (λ w.
                    with_session
                      (record (Session.session_settle w.session r.params) { connected = true })
                      w)
                  >> modify notify_waiters)).0.session
                ≡ record (Session.session_settle w.session r.params) { connected = true })
      after r (v, ok a) same = inr (rw same refl)
      after r (v, err e) same = inl same
      after r (v, panic) same = inl same

  pub update_changes :
      (method : Text) (nonce plain : Bytes) (has_callback : Bool) (w : World)
      → method ≡ codes "wc_sessionUpdate"
      → Requested method plain w.session
          (handle_session_update_request serde ciphers hex nonce plain has_callback w).0.session
  unfolding handle_session_update_request with_session
  update_changes method nonce plain has_callback w named =
      elim (Option-cases (serde.update.read plain)) [
        | inl bad ↦ stays (ground arith)
        | inr (r, reads) ↦
            let same =
              answered serde ciphers hex serde.update r has_callback nonce (new_response r.id true)
                Tag.update_response (with_session (Session.session_update w.session r.params) w) in
            updates r named reads (ground arith)
      ]

  pub delete_changes :
      (method : Text) (nonce plain : Bytes) (has_callback : Bool) (w : World)
      → method ≡ codes "wc_sessionDelete"
      → Requested method plain w.session
          (handle_session_delete_request serde ciphers hex nonce plain has_callback w).0.session
  unfolding handle_session_delete_request with_session
  delete_changes method nonce plain has_callback w named =
      elim (Option-cases (serde.delete.read plain)) [
        | inl bad ↦ stays (ground arith)
        | inr (r, reads) ↦
            let same =
              answered serde ciphers hex serde.delete r has_callback nonce (new_response r.id true)
                Tag.delete_response (with_session (Session.session_delete w.session) w) in
            deletes r named reads (ground arith)
      ]

  accept_changes :
      (r : WcSessionProposeResponse) (w : World)
      → (accept_proposal serde ciphers hex r w).session
        ≡ (Session.session_proposal_response ciphers hex w.session r).0
  unfolding accept_proposal with_session send_message Session.session_proposal_response
  accept_changes r w =
      elim (Option-cases
        (derive_symkey_topic ciphers hex r.responder_public_key w.session.client_secret_key)) [
          | inl bad ↦ ground arith
          | inr ((t, key), good) ↦ ground arith
        ]

  pub proposal_changes :
      (plain : Bytes) (w : World)
      → Proposed plain w.session
          (handle_session_proposal_response serde ciphers hex plain w).0.session
  unfolding handle_session_proposal_response apply_proposal into_result
  proposal_changes plain w = elim (Option-cases (serde.read_propose_response plain)) [
    | inl bad ↦ unanswered (ground arith)
    | inr (r, reads) ↦ elim (Option-cases (serde.propose_response_to_value r)) [
      | inl bad ↦ unanswered (ground arith)
      | inr (v, value) ↦
          let same =
            take_pending-session serde ciphers hex r.id (sent v)
              (apply_proposal serde ciphers hex r.outcome w) in
          elim (applied r.outcome) [
            | inl kept ↦ unanswered (ground arith)
            | inr (accepted, outcome, made) ↦ pairs r accepted reads outcome (ground arith)
          ]
    ]
  ]
    where
      applied :
          (d : ResponseData WcSessionProposeResponse)
          → ((apply_proposal serde ciphers hex d w).session ≡ w.session)
            ⊎ ((accepted : WcSessionProposeResponse) × (d ≡ success accepted)
                × ((apply_proposal serde ciphers hex d w).session
                    ≡ (Session.session_proposal_response ciphers hex w.session accepted).0))
      applied (success r) = inr (r, refl, accept_changes r w)
      applied (failure e) = inl refl
