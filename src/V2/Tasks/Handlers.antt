-- ===== src/V2/Tasks/Handlers.antt =====
-- Each handler of wallet-connect/src/v2/core.rs is the steps of its task, with nothing between them.
use play_cpp_sdk.Prelude.{
  ℕ, ◌≡◌, refl, ap, Bool, true, false, List, [], ◌∷◌, if◌then◌else◌, Option-cases, inl, inr,
}
use play_cpp_sdk.Prelude.Text.{Text, Bytes, text_eq, codes}
use play_cpp_sdk.Rust.Effect.{M, Result, ok, err, panic, continue, pure, ◌>>◌}
use play_cpp_sdk.Hex.{Hex}
use play_cpp_sdk.V1.Protocol.{new_response}
use play_cpp_sdk.V2.Crypto.{Ciphers}
use play_cpp_sdk.V2.Session
use play_cpp_sdk.V2.Tag
use play_cpp_sdk.V2.Context.{Codec, Serde, Error, World, send_response, send_callback, with_session}
use play_cpp_sdk.V2.Handlers.{
  handle_session_proposal_response, handle_session_settle_request, handle_session_event_request,
  handle_session_delete_request, handle_session_update_request, handle_session_extend_request,
  handle_session_ping_request, handle_normal_rpc_response,
}
use play_cpp_sdk.V2.Dispatch.{ignored, handle_method}
use play_cpp_sdk.V2.Tasks.{
  Action, acknowledges, tells, run, act, settle_session, resolve, proposal_actions, settle_actions,
  update_actions, extend_actions, delete_actions, ping_actions, event_actions, response_actions,
  method_actions,
}

-- An action at the end: what `pure` adds is nothing.
continue-tt : (r : World × Result Error (Unit {0})) → continue r (λ _. pure tt) ≡ r
continue-tt (w, ok a) = refl
continue-tt (w, err e) = refl
continue-tt (w, panic) = refl

pub continue_both :
    (r : World × Result Error (Unit {0})) (m : M World Error (Unit {0}))
    → continue r (λ _. m >> pure tt) ≡ continue r (λ _. m)
continue_both (w, ok a) m = continue-tt (m w)
continue_both (w, err e) m = refl
continue_both (w, panic) m = refl

module _ (serde : Serde) (ciphers : Ciphers) (hex : Hex) (has_callback : Bool) (nonce : Bytes) where
  abbrev pub ran : List Action → M World Error (Unit {0})
  ran = run serde ciphers hex has_callback nonce

  -- An acknowledgement and the application's message at the end of a handler.
  told :
      {T : Type 0} (codec : Codec T) (message : T) (id tag : ℕ) (w : World)
      → ignored (ran (acknowledges id tag ∷ tells (codec.write message) ∷ []) w)
        ≡ ignored (
            continue
              (send_response serde ciphers nonce (new_response id true) tag w)
              (λ _. send_callback serde ciphers codec message has_callback))
  unfolding run act send_callback
  told codec message id tag w = ap ignored (
      continue_both (send_response serde ciphers nonce (new_response id true) tag w)
        (send_callback serde ciphers codec message has_callback))

  -- The handlers' steps, and the handlers.
  abbrev Whole : List Action → M World Error (Unit {0}) → Type 0
  Whole actions handler = (w : World) → ignored (ran actions w) ≡ ignored (handler w)

  settle-Whole :
      (plain : Bytes)
      → Whole
          (settle_actions serde (serde.settle.read plain))
          (handle_session_settle_request serde ciphers hex nonce plain)
  unfolding settle_actions run act handle_session_settle_request settle_session
  settle-Whole plain w = elim (Option-cases (serde.settle.read plain)) [
    | inl e ↦ rw e refl
    | inr (r, e) ↦ rw e refl
  ]

  update-Whole :
      (plain : Bytes)
      → Whole
          (update_actions serde (serde.update.read plain))
          (handle_session_update_request serde ciphers hex nonce plain has_callback)
  unfolding update_actions run act handle_session_update_request
  update-Whole plain w = elim (Option-cases (serde.update.read plain)) [
    | inl e ↦ rw e refl
    | inr (r, e) ↦ rw e (
        told serde.update r r.id Tag.update_response
          (with_session (Session.session_update w.session r.params) w))
  ]

  extend-Whole :
      (plain : Bytes)
      → Whole
          (extend_actions serde (serde.extend.read plain))
          (handle_session_extend_request serde ciphers hex nonce plain has_callback)
  unfolding extend_actions run act handle_session_extend_request
  extend-Whole plain w = elim (Option-cases (serde.extend.read plain)) [
    | inl e ↦ rw e refl
    | inr (r, e) ↦ rw e (
        told serde.extend r r.id Tag.extend_response
          (with_session (Session.session_extend w.session) w))
  ]

  delete-Whole :
      (plain : Bytes)
      → Whole
          (delete_actions serde (serde.delete.read plain))
          (handle_session_delete_request serde ciphers hex nonce plain has_callback)
  unfolding delete_actions run act handle_session_delete_request
  delete-Whole plain w = elim (Option-cases (serde.delete.read plain)) [
    | inl e ↦ rw e refl
    | inr (r, e) ↦ rw e (
        told serde.delete r r.id Tag.delete_response
          (with_session (Session.session_delete w.session) w))
  ]

  ping-Whole :
      (plain : Bytes)
      → Whole
          (ping_actions serde (serde.ping.read plain))
          (handle_session_ping_request serde ciphers hex nonce plain has_callback)
  unfolding ping_actions run act handle_session_ping_request
  ping-Whole plain w = elim (Option-cases (serde.ping.read plain)) [
    | inl e ↦ rw e refl
    | inr (r, e) ↦ rw e (told serde.ping r r.id Tag.ping_response w)
  ]

  event-Whole :
      (plain : Bytes)
      → Whole
          (event_actions serde (serde.event.read plain))
          (handle_session_event_request serde ciphers hex nonce plain has_callback)
  unfolding event_actions run act handle_session_event_request
  event-Whole plain w = elim (Option-cases (serde.event.read plain)) [
    | inl e ↦ rw e refl
    | inr (r, e) ↦ rw e (told serde.event r r.id Tag.event_response w)
  ]

  pub response-Whole :
      (plain : Bytes)
      → Whole
          (response_actions serde (serde.read_response plain))
          (handle_normal_rpc_response serde ciphers hex plain)
  unfolding response_actions run act handle_normal_rpc_response resolve
  response-Whole plain w = elim (Option-cases (serde.read_response plain)) [
    | inl e ↦ rw e refl
    | inr (r, e) ↦ rw e (ap ignored (continue-tt (resolve serde r w)))
  ]

  pub proposal-Whole :
      (plain : Bytes)
      → Whole
          (proposal_actions serde (serde.read_propose_response plain))
          (handle_session_proposal_response serde ciphers hex plain)
  unfolding proposal_actions run act handle_session_proposal_response
  proposal-Whole plain w = elim (Option-cases (serde.read_propose_response plain)) [
    | inl e ↦ rw e refl
    | inr (r, e) ↦ elim (Option-cases (serde.propose_response_to_value r)) [
      | inl bad ↦ rw (e, bad, proposal_actions) refl
      | inr (v, good) ↦ rw (e, good, proposal_actions) refl
    ]
  ]

  branch_whole :
      (b : Bool) (xs ys : List Action) (w : World) (r s : World × Result Error (Unit {0}))
      → ignored (ran xs w) ≡ r
      → ignored (ran ys w) ≡ s
      → ignored (ran (if b then xs else ys) w) ≡ (if b then r else s)
  branch_whole true xs ys w r s first second = first
  branch_whole false xs ys w r s first second = second

  pub method-Whole :
      (method : Text) (plain : Bytes) (w : World)
      → ignored (ran (method_actions serde method plain) w)
        ≡ handle_method serde ciphers hex nonce has_callback method plain w
  unfolding method_actions handle_method run
  method-Whole method plain w =
      branch_whole (text_eq method (codes "wc_sessionSettle")) _ _ w _ _ (settle-Whole plain w) (
        branch_whole (text_eq method (codes "wc_sessionUpdate")) _ _ w _ _ (update-Whole plain w) (
          branch_whole (text_eq method (codes "wc_sessionExtend")) _ _ w _ _ (extend-Whole plain w)
            (branch_whole (text_eq method (codes "wc_sessionPing")) _ _ w _ _ (ping-Whole plain w) (
              branch_whole (text_eq method (codes "wc_sessionDelete")) _ _ w _ _
                (delete-Whole plain w)
                (branch_whole (text_eq method (codes "wc_sessionEvent")) _ [] w _ (w, ok tt)
                  (event-Whole plain w) refl)))))
