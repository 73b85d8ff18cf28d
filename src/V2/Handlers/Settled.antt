-- ===== src/V2/Handlers/Settled.antt =====
-- That a connected session has the wallet's namespaces and metadata, through every handler.
use play_cpp_sdk.Prelude.{
  ℕ, ◌≡◌, refl, Bool, true, arith, Option-cases, inl, inr, not, ◌||◌, ◌&&◌, is_some, unwrap_or,
}
use play_cpp_sdk.Prelude.Text.{Bytes}
use play_cpp_sdk.Prelude.Assoc.{lookup}
use play_cpp_sdk.Rust.Effect.{Result, ok, err, panic, ◌>>◌, modify, continue}
use play_cpp_sdk.Hex.{Hex}
use play_cpp_sdk.V1.Protocol.{
  Request, new_response, ResponseData, into_value, into_result, success, failure,
}
use play_cpp_sdk.V2.Crypto.{Ciphers, derive_symkey_topic}
use play_cpp_sdk.V2.Protocol.{WcSessionProposeResponse, WcSessionSettle}
use play_cpp_sdk.V2.Session.{SessionInfo}
use play_cpp_sdk.V2.Session
use play_cpp_sdk.V2.Tag
use play_cpp_sdk.V2.Context.{
  Serde, Error, World, Oneshot, sent, with_session, notify_waiters, send_message, send_response,
  take_pending,
}
use play_cpp_sdk.V2.Handlers.Replies.{send_response-session, answered}
use play_cpp_sdk.V2.Handlers.{
  accept_proposal, apply_proposal, handle_session_proposal_response, handle_session_settle_request,
  handle_session_event_request, handle_session_delete_request, handle_session_update_request,
  handle_session_extend_request, handle_session_ping_request, handle_normal_rpc_response,
}

-- A connected session has the namespaces and the metadata of the wallet.
unfoldable pub IsSettled : SessionInfo → Type 0
IsSettled s = (not s.connected || (is_some s.namespaces && is_some s.pairing_peer_meta)) ≡ true

module _ (serde : Serde) (ciphers : Ciphers) (hex : Hex) where
  pub settle_kept :
      (nonce plain : Bytes) (w : World)
      → IsSettled w.session
      → IsSettled (handle_session_settle_request serde ciphers hex nonce plain w).0.session
  unfolding IsSettled handle_session_settle_request with_session notify_waiters
      Session.session_settle
  settle_kept nonce plain w settled = elim (Option-cases (serde.settle.read plain)) [
    | inl bad ↦ ground arith
    | inr (r, reads) ↦
        let same =
          send_response-session serde ciphers hex nonce (new_response r.id true) Tag.settle_response
            w in
        let here =
          after r (send_response serde ciphers nonce (new_response r.id true) Tag.settle_response w)
            same in
        ground arith
  ]
    where
      after :
          (r : Request WcSessionSettle) (s : World × Result Error (Unit {0}))
          → s.0.session ≡ w.session
          → IsSettled
              (continue s (λ _.
                modify (λ w.
                  with_session
                    (record (Session.session_settle w.session r.params) { connected = true })
                    w)
                >> modify notify_waiters)).0.session
      after r (v, ok a) same = refl
      after r (v, err e) same = ground arith
      after r (v, panic) same = ground arith

  pub event_kept :
      (nonce plain : Bytes) (has_callback : Bool) (w : World)
      → (handle_session_event_request serde ciphers hex nonce plain has_callback w).0.session
        ≡ w.session
  unfolding handle_session_event_request
  event_kept nonce plain has_callback w = elim (Option-cases (serde.event.read plain)) [
    | inl bad ↦ ground arith
    | inr (r, reads) ↦
        let same =
          answered serde ciphers hex serde.event r has_callback nonce (new_response r.id true)
            Tag.event_response w in
        ground arith
  ]

  pub ping_kept :
      (nonce plain : Bytes) (has_callback : Bool) (w : World)
      → (handle_session_ping_request serde ciphers hex nonce plain has_callback w).0.session
        ≡ w.session
  unfolding handle_session_ping_request
  ping_kept nonce plain has_callback w = elim (Option-cases (serde.ping.read plain)) [
    | inl bad ↦ ground arith
    | inr (r, reads) ↦
        let same =
          answered serde ciphers hex serde.ping r has_callback nonce (new_response r.id true)
            Tag.ping_response w in
        ground arith
  ]

  pub extend_kept :
      (nonce plain : Bytes) (has_callback : Bool) (w : World)
      → (handle_session_extend_request serde ciphers hex nonce plain has_callback w).0.session
        ≡ w.session
  unfolding handle_session_extend_request with_session Session.session_extend
  extend_kept nonce plain has_callback w = elim (Option-cases (serde.extend.read plain)) [
    | inl bad ↦ ground arith
    | inr (r, reads) ↦
        let same =
          answered serde ciphers hex serde.extend r has_callback nonce (new_response r.id true)
            Tag.extend_response w in
        ground arith
  ]

  pub update_kept :
      (nonce plain : Bytes) (has_callback : Bool) (w : World)
      → IsSettled w.session
      → IsSettled
          (handle_session_update_request serde ciphers hex nonce plain has_callback w).0.session
  unfolding IsSettled handle_session_update_request with_session Session.session_update
  update_kept nonce plain has_callback w settled = elim (Option-cases (serde.update.read plain)) [
    | inl bad ↦ ground arith
    | inr (r, reads) ↦
        let same =
          answered serde ciphers hex serde.update r has_callback nonce (new_response r.id true)
            Tag.update_response (with_session (Session.session_update w.session r.params) w) in
        ground arith
  ]

  pub delete_kept :
      (nonce plain : Bytes) (has_callback : Bool) (w : World)
      → IsSettled w.session
      → IsSettled
          (handle_session_delete_request serde ciphers hex nonce plain has_callback w).0.session
  unfolding IsSettled handle_session_delete_request with_session Session.session_delete
  delete_kept nonce plain has_callback w settled = elim (Option-cases (serde.delete.read plain)) [
    | inl bad ↦ ground arith
    | inr (r, reads) ↦
        let same =
          answered serde ciphers hex serde.delete r has_callback nonce (new_response r.id true)
            Tag.delete_response (with_session (Session.session_delete w.session) w) in
        ground arith
  ]

  pub take_pending-session :
      (id : ℕ) (state : Oneshot) (w : World)
      → (unwrap_or (take_pending id state w) w).session ≡ w.session
  unfolding take_pending
  take_pending-session id state w = elim (Option-cases (lookup id w.pending_requests)) [
    | inl bad ↦ ground arith
    | inr (ch, good) ↦ ground arith
  ]

  pub normal_kept :
      (plain : Bytes) (w : World)
      → (handle_normal_rpc_response serde ciphers hex plain w).0.session ≡ w.session
  unfolding handle_normal_rpc_response take_pending
  normal_kept plain w = elim (Option-cases (serde.read_response plain)) [
    | inl bad ↦ ground arith
    | inr (r, reads) ↦ elim (Option-cases (lookup r.id w.pending_requests)) [
      | inl bad ↦ ground arith
      | inr (ch, good) ↦ elim (Option-cases (into_value serde.error_to_value r.outcome)) [
        | inl bad ↦ ground arith
        | inr (v, value) ↦ ground arith
      ]
    ]
  ]

  pub accept_proposal_kept :
      (r : WcSessionProposeResponse) (w : World)
      → IsSettled w.session
      → IsSettled (accept_proposal serde ciphers hex r w).session
  unfolding IsSettled accept_proposal with_session send_message Session.session_proposal_response
  accept_proposal_kept r w settled =
      elim (Option-cases
        (derive_symkey_topic ciphers hex r.responder_public_key w.session.client_secret_key)) [
          | inl bad ↦ ground arith
          | inr ((t, key), good) ↦ ground arith
        ]

  pub proposal_kept :
      (plain : Bytes) (w : World)
      → IsSettled w.session
      → IsSettled (handle_session_proposal_response serde ciphers hex plain w).0.session
  unfolding IsSettled handle_session_proposal_response apply_proposal into_result
  proposal_kept plain w settled = elim (Option-cases (serde.read_propose_response plain)) [
    | inl bad ↦ ground arith
    | inr (r, reads) ↦ elim (Option-cases (serde.propose_response_to_value r)) [
      | inl bad ↦ ground arith
      | inr (v, value) ↦
          let kept = apply_kept r.outcome in
          let same =
            take_pending-session r.id (sent v) (apply_proposal serde ciphers hex r.outcome w) in
          ground arith
    ]
  ]
    where
      apply_kept :
          (d : ResponseData WcSessionProposeResponse)
          → IsSettled (apply_proposal serde ciphers hex d w).session
      apply_kept (success r) = accept_proposal_kept r w settled
      apply_kept (failure e) = settled
