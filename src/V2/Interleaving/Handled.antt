-- ===== src/V2/Interleaving/Handled.antt =====
-- What a settlement and the end of a session do when each is handled as a whole.
use play_cpp_sdk.Prelude.{
  ℕ, ◌≡◌, ◌≢◌, Bool-cases, refl, ◌∙◌, ap, Bool, true, some, [], arith, Option-cases, inl, inr,
}
use play_cpp_sdk.Prelude.Text.{Text, Bytes, text_eq}
use play_cpp_sdk.Rust.Effect.{Result, ok, err, panic}
use play_cpp_sdk.Hex.{Hex}
use play_cpp_sdk.V1.Protocol.{Request, new_response, Response}
use play_cpp_sdk.V2.Crypto.{Ciphers, decode_decrypt}
use play_cpp_sdk.V2.Protocol.{WcSessionSettle, WcSessionDelete}
use play_cpp_sdk.V2.Session
use play_cpp_sdk.V2.Tag
use play_cpp_sdk.V2.Context.{Serde, World, send_response, with_session, notify_waiters}
use play_cpp_sdk.V2.Handlers.Replies.{answered, send_response-session}
use play_cpp_sdk.V2.Dispatch.{message_received}
use play_cpp_sdk.V2.Dispatch.History.{Received}
use play_cpp_sdk.V2.Tasks.{
  act, run, settle_session, written, settle_actions, delete_actions, message_actions,
  proposal_actions, pairing_actions, if_plain,
}
use play_cpp_sdk.V2.Tasks.Whole.{message_received-run}
use play_cpp_sdk.V2.Tasks.Handlers.{continue_both}
use play_cpp_sdk.V2.Interleaving.Alone.{ignored-world}

module _ (serde : Serde) (ciphers : Ciphers) (hex : Hex) (has_callback : Bool) where
  -- An answer that serialises is no failure, and leaves the session as it is.
  pub acknowledged :
      (nonce : Bytes) (response : Response Bool) (tag : ℕ) (text : Text) (w : World)
      → serde.write_ack response ≡ some text
      → (v : World) × (send_response serde ciphers nonce response tag w ≡ (v, ok tt))
        × (v.session ≡ w.session)
  unfolding send_response
  acknowledged nonce response tag text w writes =
      elim (Option-cases w.session.pairing_topic_symkey) [
        | inl e ↦ (w, ground arith, refl)
        | inr ((t, key), e) ↦ (
          (send_response serde ciphers nonce response tag w).0,
          ground arith,
          send_response-session serde ciphers hex nonce response tag w,
        )
      ]

  -- A task that deletes the session leaves it deleted, whatever becomes of its answer.
  pub deleted :
      (nonce : Bytes) (r : Request WcSessionDelete) (v : World)
      → (run serde ciphers hex has_callback nonce (delete_actions serde (some r)) v).0.session
        ≡ Session.session_delete v.session
  unfolding delete_actions run act with_session
  deleted nonce r v =
      let v' = with_session (Session.session_delete v.session) v in
      ap (λ x. x.0.session)
        (continue_both
          (send_response serde ciphers nonce (new_response r.id true) Tag.delete_response v') _)
      ∙ answered serde ciphers hex written (serde.delete.write r) has_callback nonce
          (new_response r.id true) Tag.delete_response v'

  pub received_delete :
      (m : Received) (r : Request WcSessionDelete) (v : World)
      → message_actions serde ciphers m.topic m.message v.session
        ≡ some (delete_actions serde (some r))
      → (message_received serde ciphers hex m.nonce has_callback m.topic m.message v).0.session
        ≡ Session.session_delete v.session
  received_delete m r v reads =
      rw (message_received-run serde ciphers hex has_callback m.nonce m.topic m.message v) (
        rw reads (
          ap (λ x. x.session) (ignored-world serde ciphers hex has_callback _)
          ∙ deleted m.nonce r v))

  pub settled :
      (nonce : Bytes) (r : Request WcSessionSettle) (text : Text) (v : World)
      → serde.write_ack (new_response r.id true) ≡ some text
      → (run serde ciphers hex has_callback nonce (settle_actions serde (some r)) v).0.session
        ≡ record (Session.session_settle v.session r.params) { connected = true }
  unfolding settle_actions run act settle_session with_session notify_waiters
  settled nonce r text v writes =
      let (v', e, same) =
        acknowledged nonce (new_response r.id true) Tag.settle_response text v writes in
      rw e (ap (λ s. record (Session.session_settle s r.params) { connected = true }) same)

  pub received_settle :
      (m : Received) (r : Request WcSessionSettle) (text : Text) (v : World)
      → serde.write_ack (new_response r.id true) ≡ some text
      → message_actions serde ciphers m.topic m.message v.session
        ≡ some (settle_actions serde (some r))
      → (message_received serde ciphers hex m.nonce has_callback m.topic m.message v).0.session
        ≡ record (Session.session_settle v.session r.params) { connected = true }
  received_settle m r text v writes reads =
      rw (message_received-run serde ciphers hex has_callback m.nonce m.topic m.message v) (
        rw reads (
          ap (λ x. x.session) (ignored-world serde ciphers hex has_callback _)
          ∙ settled m.nonce r text v writes))

  -- A proposal's response never settles a session.
  not_settle :
      (d : Result (Unit {0}) Bytes) (r : Request WcSessionSettle)
      → if_plain d (λ plain. some (proposal_actions serde (serde.read_propose_response plain)))
        ≢ some (settle_actions serde (some r))
  unfolding settle_actions proposal_actions
  not_settle (ok plain) r e = ground arith
  not_settle (err x) r e = ground arith
  not_settle panic r e = ground arith

  -- Once the session is deleted, nothing is done with a settlement.
  pub late_settle :
      (m : Received) (r : Request WcSessionSettle) (s : Session.SessionInfo)
      → message_actions serde ciphers m.topic m.message s ≡ some (settle_actions serde (some r))
      → message_actions serde ciphers m.topic m.message (Session.session_delete s) ≡ some []
  unfolding message_actions pairing_actions Session.session_delete
  late_settle m r s e = elim (Bool-cases (text_eq m.topic s.session_proposal_topic)) [
    | inl proposal ↦ absurd (
        not_settle (decode_decrypt ciphers s.session_proposal_symkey m.message) r
          (rw proposal at e))
    | inr other ↦ rw other refl
  ]

  -- A settlement changes nothing of what tells a task what to do.
  pub same_actions :
      (m : Received) (s : Session.SessionInfo) (params : WcSessionSettle)
      → message_actions serde ciphers m.topic m.message
          (record (Session.session_settle s params) { connected = true })
        ≡ message_actions serde ciphers m.topic m.message s
  unfolding message_actions Session.session_settle
  same_actions m s params = refl

  pub received_nothing :
      (m : Received) (v : World)
      → message_actions serde ciphers m.topic m.message v.session ≡ some []
      → (message_received serde ciphers hex m.nonce has_callback m.topic m.message v).0.session
        ≡ v.session
  unfolding run
  received_nothing m v reads =
      rw (message_received-run serde ciphers hex has_callback m.nonce m.topic m.message v)
        (rw reads refl)
