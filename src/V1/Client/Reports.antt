-- ===== src/V1/Client/Reports.antt =====
-- What the application is told on the callback channel while a session is made.
use play_cpp_sdk.Prelude.{
  ℕ, ◌≡◌, refl, true, false, some, List, [], ◌∷◌, ◌++◌, arith, Option-cases, Bool-cases, inl, inr,
}
use play_cpp_sdk.Prelude.Text.{Bytes}
use play_cpp_sdk.Rust.Effect.{ok, continue, continue-eq-ok}
use play_cpp_sdk.V1.Protocol.{Address}
use play_cpp_sdk.V1.Crypto.{Ciphers}
use play_cpp_sdk.V1.Session.{
  ClientChannelMessage, ClientChannelMessageType, connecting, connected, Callbacks, SessionInfo,
  event_connecting, apply, notify,
}
use play_cpp_sdk.V1.Session
use play_cpp_sdk.V1.Context.{Serde, World, with_session, with_pending_flag, enqueue}
use play_cpp_sdk.V1.Context.Sizes.{register-Rest, register_callbacks}
use play_cpp_sdk.V1.Socket.{Await, Awaited, received, closed, elapsed}
use play_cpp_sdk.V1.Handshake.{start_session, finish_session, create_session}
use play_cpp_sdk.V1.Connector.{notify_connecting, get_safe_random}
use play_cpp_sdk.V1.Connector
use play_cpp_sdk.V1.Connector.Sessions.{ensure_session_ok}
use play_cpp_sdk.V1.Client.{ensure_session}

-- A message with a session's state.
abbrev pub report : ClientChannelMessageType → SessionInfo → ClientChannelMessage
report state info = record { state = state; session = some info }

-- The other tasks leave the channel of the session alone.
abbrev pub KeepsChannel : Await → Type 0
KeepsChannel await =
    (c : ℕ) (v : World) → (await c v).0.session.callback_channel ≡ v.session.callback_channel

module _ (serde : Serde) (ciphers : Ciphers) where
  start_quiet :
      (iv : Bytes) (id : ℕ) (w w1 : World) (tx : ℕ)
      → start_session serde ciphers iv id w ≡ (w1, ok tx)
      → (w1.session ≡ w.session) × (w1.callbacks ≡ w.callbacks)
  unfolding start_session enqueue with_pending_flag
  start_quiet iv id w w1 tx started =
      let rest = register-Rest id (with_pending_flag true w) in
      let same = register_callbacks id (with_pending_flag true w) in (ground arith, ground arith)

  finish_reports :
      (outcome : Awaited) (w2 w' : World) (result : List Address × ℕ) (ch : ℕ)
      → w2.session.callback_channel ≡ some ch
      → finish_session serde ciphers outcome w2 ≡ (w', ok result)
      → w'.callbacks.sent ≡ w2.callbacks.sent ++ (ch, report connected w'.session.info) ∷ []
  unfolding finish_session with_session with_pending_flag Session.apply
  finish_reports closed w2 w' result ch has done = absurd (ground arith)
  finish_reports elapsed w2 w' result ch has done = absurd (ground arith)
  finish_reports (received v) w2 w' result ch has done =
      elim (Option-cases (serde.read_session_params v)) [
        | inl bad ↦ absurd (ground arith)
        | inr (params, good) ↦ elim (Bool-cases (w2.callbacks.is_open ch)) [
          | inl open_there ↦ ground arith
          | inr shut ↦ absurd (ground arith)
        ]
      ]

  connecting_reports :
      (w w1 : World) (ch : ℕ)
      → w.session.callback_channel ≡ some ch
      → notify_connecting serde ciphers w ≡ (w1, ok tt)
      → (w1.session ≡ w.session)
        × (w1.callbacks.sent ≡ w.callbacks.sent ++ (ch, report connecting w.session.info) ∷ [])
  unfolding notify_connecting Session.event_connecting
  connecting_reports w w1 ch has done = elim (Bool-cases (w.callbacks.is_open ch)) [
    | inl open_there ↦ (ground arith, ground arith)
    | inr shut ↦ absurd (ground arith)
  ]

  made :
      (await : Await) (iv : Bytes) (id ch : ℕ) (v w0 w' : World) (result : List Address × ℕ)
      → v.session.callback_channel ≡ some ch
      → KeepsChannel await
      → notify_connecting serde ciphers v ≡ (w0, ok tt)
      → create_session serde ciphers await iv id w0 ≡ (w', ok result)
      → (w1 : World) × (tx : ℕ) × (w1.callbacks.sent
          ≡ v.callbacks.sent ++ (ch, report connecting v.session.info) ∷ [])
        × (w'.callbacks.sent
            ≡ (await tx w1).0.callbacks.sent ++ (ch, report connected w'.session.info) ∷ [])
  unfolding create_session
  made await iv id ch v w0 w' result has keeps told created =
      let (s0, sent0) = connecting_reports v w0 ch has told in
      let (w1, tx, started, rest) =
        continue-eq-ok (start_session serde ciphers iv id w0) _ created in
      let (s1, calls) = start_quiet iv id w0 w1 tx started in
      let kept = keeps tx w1 in
      let has1 : (await tx w1).0.session.callback_channel ≡ some ch = ground arith in
      (
        w1,
        tx,
        ground arith,
        finish_reports (await tx w1).1 (await tx w1).0 w' result ch has1 (ground arith),
      )

  -- A client with a callback channel that makes a new session tells the application twice. Before the wait
  -- for the wallet it reports `Connecting` with the session as it was, and after it, behind all that
  -- was sent meanwhile, `Connected` with the session that it leaves, whose accounts are the
  -- result; no other task may change the session's channel during the wait.
  pub ensure_session_reports :
      (await : Await) (iv : Bytes) (random ch : ℕ) (w w' : World) (result : List Address × ℕ)
      → w.session.info.connected ≡ false
      → KeepsChannel await
      → ensure_session serde ciphers (some ch) await iv random w ≡ (w', ok result)
      → (w1 : World) × (tx : ℕ) × (w1.callbacks.sent
          ≡ w.callbacks.sent ++ (ch, report connecting w.session.info) ∷ [])
        × (w'.callbacks.sent
            ≡ (await tx w1).0.callbacks.sent ++ (ch, report connected w'.session.info) ∷ [])
        × (result.0 ≡ w'.session.info.accounts)
  unfolding ensure_session Connector.ensure_session Connector.set_callback with_session
      Session.set_callback
  ensure_session_reports await iv random ch w w' result absent keeps done =
      let v = Connector.set_callback ch w in
      let id = get_safe_random random in
      let whole : continue (notify_connecting serde ciphers v)
            (λ _. create_session serde ciphers await iv id)
          ≡ (w', ok result) =
        ground arith in
      let (w0, u, n, created) = continue-eq-ok (notify_connecting serde ciphers v) _ whole in
      let (w1, tx, told, later) = made await iv id ch v w0 w' result refl keeps n created in
      (w1, tx, told, later, hands_out)
    where
      hands_out : result.0 ≡ w'.session.info.accounts
      hands_out =
          (ensure_session_ok serde ciphers await iv random (Connector.set_callback ch w) w' result.0
            result.1 done).0
