-- ===== src/V2/Interleaving/Race.antt =====
-- A settlement and the end of the session that are handled at the same time.
use play_cpp_sdk.Prelude.{
  ℕ, ◌≡◌, refl, ◌∙◌, ap, Bool, true, false, Option, none, some, [], ◌∷◌, arith,
}
use play_cpp_sdk.Prelude.Text.{Text, Bytes}
use play_cpp_sdk.Rust.Effect.{ok, err}
use play_cpp_sdk.Hex.{Hex}
use play_cpp_sdk.V1.Protocol.{Value, Request, new_response}
use play_cpp_sdk.V2.Crypto.{Ciphers}
use play_cpp_sdk.V2.Protocol.{WcSessionSettle, WcSessionDelete, WcSessionPropose, WcSessionRequest}
use play_cpp_sdk.V2.Session
use play_cpp_sdk.V2.Tag
use play_cpp_sdk.V2.Context.{
  Serde, World, no_pairing, with_session, notify_waiters, restore_subscription,
}
use play_cpp_sdk.V2.Dispatch.{message_received}
use play_cpp_sdk.V2.Dispatch.History.{Received, receive}
use play_cpp_sdk.V2.Tasks.{
  act, run, settles, acknowledges, settle_session, Task, arrived, handling, resume, settle_actions,
  delete_actions, message_actions,
}
use play_cpp_sdk.V2.Tasks.Whole.{alone}
use play_cpp_sdk.V2.Connector.{Await, established, ensure_session, request}
use play_cpp_sdk.V2.Interleaving.{Pool, resumed, runs, arrives, Reach, here, next}
use play_cpp_sdk.V2.Interleaving.Alone.{pool, Reach-trans, run-Reach, received-Reach}
use play_cpp_sdk.V2.Interleaving.Handled.{
  acknowledged, received_delete, received_settle, late_settle, same_actions, received_nothing,
}

module _ (serde : Serde) (ciphers : Ciphers) (hex : Hex) (has_callback : Bool) where
  wedged :
      (propose : Request WcSessionPropose → Option Text) (await : Await) (nonce : Bytes)
      (random : ℕ) (w : World)
      → w.session.connected ≡ true
      → w.session.pairing_topic_symkey ≡ none
      → ensure_session serde ciphers propose await nonce random w ≡ (w, ok established)
  unfolding ensure_session restore_subscription
  wedged propose await nonce random w on alone = ground arith

  unrequested :
      {P R : Type 0} (write : Request (WcSessionRequest P) → Option Text) (read : Value → Option R)
      (await : Await) (nonce : Bytes) (random : ℕ) (method : Text) (params : P) (w : World)
      → w.session.pairing_topic_symkey ≡ none
      → request serde ciphers write read await nonce random method params w ≡ (w, err no_pairing)
  unfolding request
  unrequested write read await nonce random method params w alone = ground arith

  module _ (m1 m2 : Received) (r1 : Request WcSessionSettle) (r2 : Request WcSessionDelete)
      (text : Text) (w : World)
      (settling : message_actions serde ciphers m1.topic m1.message w.session
        ≡ some (settle_actions serde (some r1)))
      (deleting : message_actions serde ciphers m2.topic m2.message w.session
        ≡ some (delete_actions serde (some r2)))
      (writes : serde.write_ack (new_response r1.id true) ≡ some text) where
    -- The settlement is read and acknowledged, the end of the session is handled, and the session is
    -- settled serde ciphers hex has_callback then.
    interleaved :
        (p : Pool) × Reach serde ciphers hex has_callback (pool w []) p
        × (p.tasks ≡ [])
        × (p.world.session.connected ≡ true)
        × (p.world.session.pairing_topic_symkey ≡ none)
    unfolding resumed resume act run settle_actions settle_session with_session notify_waiters
        Session.session_settle Session.session_delete
    interleaved =
        let (v, sends, same) =
          acknowledged serde ciphers hex has_callback m1.nonce (new_response r1.id true)
            Tag.settle_response text w writes in
        let late : Task = handling m1.nonce (settles r1.params ∷ []) in
        let first : Task =
          handling m1.nonce (acknowledges r1.id Tag.settle_response ∷ settles r1.params ∷ []) in
        let starts : Reach serde ciphers hex has_callback (pool w (arrived m1 ∷ []))
            (pool w (first ∷ [])) =
          next here (runs [] (arrived m1) [] refl (rw settling refl)) in
        let answers : Reach serde ciphers hex has_callback (pool w (first ∷ []))
            (pool v (late ∷ [])) =
          next here (runs [] first [] refl (rw sends refl)) in
        let u =
          (message_received serde ciphers hex m2.nonce has_callback m2.topic m2.message v).0 in
        let gone : u.session ≡ Session.session_delete v.session =
          received_delete serde ciphers hex has_callback m2 r2 v (rw same deleting) in
        (
          pool (settle_session r1.params u) [],
          Reach-trans serde ciphers hex has_callback
              (Reach-trans serde ciphers hex has_callback (next here (arrives m1 refl))
                (Reach-trans serde ciphers hex has_callback starts answers))
              (Reach-trans serde ciphers hex has_callback
                (received-Reach serde ciphers hex has_callback m2 (late ∷ []) v)
                (run-Reach serde ciphers hex has_callback m1.nonce (settles r1.params ∷ []) [] []
                  u)),
          refl,
          refl,
          ap (λ s. s.pairing_topic_symkey) gone,
        )

    -- One after the other, in either order, the two messages leave no connected session.
    in_order :
        ((receive serde ciphers hex has_callback (m1 ∷ m2 ∷ []) w).session.connected ≡ false)
        × ((receive serde ciphers hex has_callback (m2 ∷ m1 ∷ []) w).session.connected ≡ false)
    unfolding receive Session.session_delete
    in_order =
        let v1 =
          (message_received serde ciphers hex m1.nonce has_callback m1.topic m1.message w).0 in
        let v2 =
          (message_received serde ciphers hex m2.nonce has_callback m2.topic m2.message w).0 in
        let first = received_settle serde ciphers hex has_callback m1 r1 text w writes settling in
        let second = received_delete serde ciphers hex has_callback m2 r2 w deleting in
        (
          ap (λ s. s.connected)
              (received_delete serde ciphers hex has_callback m2 r2 v1 (
                rw first
                  (same_actions serde ciphers hex has_callback m2 w.session r1.params ∙ deleting))),
          ap (λ s. s.connected)
              (received_nothing serde ciphers hex has_callback m1 v2
                  (rw second (late_settle serde ciphers hex has_callback m1 r1 w.session settling))
                ∙ second),
        )

    -- A message that settles the session and one that deletes it, both readable for the same client with
    -- nothing else to do, and an acknowledgement that serialises: if the settlement is read first and the
    -- end of the session is handled before the session is settled, both tasks end with a client
    -- that is connected without a pairing. `ensure_session` takes its session for established,
    -- sends no proposal and changes nothing, and every request fails. One after the other, in
    -- either order, the same messages leave no connected session.
    pub settle_delete_wedges :
        {P R : Type 0} (write : Request (WcSessionRequest P) → Option Text)
        (read : Value → Option R) (propose : Request WcSessionPropose → Option Text) (await : Await)
        (nonce : Bytes) (random : ℕ) (method : Text) (params : P)
        → ((p : Pool) × Reach serde ciphers hex has_callback (pool w []) p
            × (p.tasks ≡ [])
            × (p.world.session.connected ≡ true)
            × (ensure_session serde ciphers propose await nonce random p.world
                ≡ (p.world, ok established))
            × (request serde ciphers write read await nonce random method params p.world
                ≡ (p.world, err no_pairing)))
          × ((receive serde ciphers hex has_callback (m1 ∷ m2 ∷ []) w).session.connected ≡ false)
          × ((receive serde ciphers hex has_callback (m2 ∷ m1 ∷ []) w).session.connected ≡ false)
    settle_delete_wedges write read propose await nonce random method params =
        let (p, reached, ended, on, alone) = interleaved in
        (
          (
            p,
            reached,
            ended,
            on,
            wedged propose await nonce random p.world on alone,
            unrequested write read await nonce random method params p.world alone,
          ),
          in_order.0,
          in_order.1,
        )
