-- ===== src/V1/Handshake/Outcomes.antt =====
-- What each end of the handshake leaves behind.
use play_cpp_sdk.Prelude.{
  ℕ, ◌≡◌, refl, sym, ap, ◌∙◌, true, false, some, List, arith, unwrap_or, Option-cases, inl, inr,
}
use play_cpp_sdk.Prelude.Text.{Bytes}
use play_cpp_sdk.Rust.Effect.{ok, err, continue-eq-ok, continue-eq-err}
use play_cpp_sdk.V1.Protocol.{Value, Address, SessionParams}
use play_cpp_sdk.V1.Crypto.{Ciphers}
use play_cpp_sdk.V1.Session
use play_cpp_sdk.V1.Context.{
  Serde, Error, already_pending, World, enqueue, with_session, with_pending_flag,
}
use play_cpp_sdk.V1.Context.Pending.{register}
use play_cpp_sdk.V1.Context.Sizes.{register-Rest, register_flag, answer_flag}
use play_cpp_sdk.V1.Socket.{Await, Awaited, received, closed, elapsed, is_rejection, queue_error}
use play_cpp_sdk.V1.Handshake.{start_session, finish_session, create_session}

module _ (serde : Serde) (ciphers : Ciphers) where
  finish_ok :
      (outcome : Awaited) (w2 w' : World) (accounts : List Address) (chain : ℕ)
      → finish_session serde ciphers outcome w2 ≡ (w', ok (accounts, chain))
      → (v : Value) × (params : SessionParams) × (outcome ≡ received v)
        × (is_rejection (serde.code_of v) ≡ false)
        × (serde.read_session_params v ≡ some params)
        × (w'.session ≡ (Session.apply w2.session params w2.callbacks).0)
        × (w'.session_pending ≡ false)
        × (accounts ≡ params.accounts)
        × (chain ≡ params.chain_id)
  unfolding finish_session with_session with_pending_flag Session.apply
  finish_ok closed w2 w' accounts chain e = absurd (ground arith)
  finish_ok elapsed w2 w' accounts chain e = absurd (ground arith)
  finish_ok (received v) w2 w' accounts chain e =
      elim (Option-cases (serde.read_session_params v)) [
        | inl bad ↦ absurd (ground arith)
        | inr (params, good) ↦ (
          v,
          params,
          refl,
          ground arith,
          good,
          ground arith,
          ground arith,
          ground arith,
          ground arith,
        )
      ]

  -- A handshake succeeds only with an answer on its own channel that has not the code -32000 and reads
  -- as session parameters. Then the session is the one that applying them leaves, the flag is down,
  -- and the result is the answer's accounts and chain.
  pub create_session_ok :
      (await : Await) (iv : Bytes) (id : ℕ) (w w' : World) (accounts : List Address) (chain : ℕ)
      → create_session serde ciphers await iv id w ≡ (w', ok (accounts, chain))
      → (tx : ℕ) × (w1 : World) × (v : Value) × (params : SessionParams) × (start_session serde
            ciphers iv id w
          ≡ (w1, ok tx))
        × ((await tx w1).1 ≡ received v)
        × (is_rejection (serde.code_of v) ≡ false)
        × (serde.read_session_params v ≡ some params)
        × (w'.session ≡ (Session.apply (await tx w1).0.session params (await tx w1).0.callbacks).0)
        × (w'.session_pending ≡ false)
        × (accounts ≡ params.accounts)
        × (chain ≡ params.chain_id)
  unfolding create_session
  create_session_ok await iv id w w' accounts chain e =
      let (w1, tx, s, rest) = continue-eq-ok (start_session serde ciphers iv id w) _ e in
      let (v, params, got, accepted, reads, session, flag, a, c) =
        finish_ok (await tx w1).1 (await tx w1).0 w' accounts chain (ground arith) in
      (tx, w1, v, params, s, got, accepted, reads, session, flag, a, c)

  -- The other tasks leave the flag of a pending handshake alone.
  abbrev pub KeepsFlag : Await → Type 0
  KeepsFlag await = (c : ℕ) (v : World) → (await c v).0.session_pending ≡ v.session_pending

  start_flag :
      (iv : Bytes) (id : ℕ) (w : World)
      → w.session.info.connected ≡ false
      → w.session_pending ≡ false
      → (start_session serde ciphers iv id w).0.session_pending ≡ true
  unfolding start_session enqueue with_pending_flag
  start_flag iv id w c p =
      let raised = with_pending_flag true w in
      let v = serde.text_to_value queue_error in
      let rest = register-Rest id raised in
      let kept = register_flag id raised in
      let told = answer_flag id v (register id raised) in ground arith

  finish_err :
      (outcome : Awaited) (w2 w' : World) (e : Error)
      → finish_session serde ciphers outcome w2 ≡ (w', err e)
      → w'.session_pending ≡ w2.session_pending
  unfolding finish_session
  finish_err (received v) w2 w' e h = ground arith
  finish_err closed w2 w' e h = ground arith
  finish_err elapsed w2 w' e h = ground arith

  failed_flag :
      (await : Await) (iv : Bytes) (id : ℕ) (w w' : World) (e : Error)
      → w.session.info.connected ≡ false
      → w.session_pending ≡ false
      → KeepsFlag await
      → create_session serde ciphers await iv id w ≡ (w', err e)
      → w'.session_pending ≡ true
  unfolding create_session
  failed_flag await iv id w w' e c p keeps failed =
      let up = start_flag iv id w c p in
      elim (continue-eq-err (start_session serde ciphers iv id w) _ failed) [
        | inl early ↦ ground arith
        | inr (w1, tx, s, rest) ↦
            let low = finish_err (await tx w1).1 (await tx w1).0 w' e (ground arith) in
            let kept = keeps tx w1 in ground arith
      ]

  pending_refuses :
      (await : Await) (iv : Bytes) (id : ℕ) (w : World)
      → w.session.info.connected ≡ false
      → w.session_pending ≡ true
      → create_session serde ciphers await iv id w ≡ (w, err already_pending)
  unfolding create_session start_session
  pending_refuses await iv id w c p = ground arith

  -- A handshake that was started, whose wait does not touch the flag, and that fails leaves the flag up:
  -- as long as the session is not connected, the next handshake fails with `Session already pending`
  -- at once, and changes nothing, so that every later one fails likewise.
  pub create_session_wedges :
      (await await2 : Await) (iv iv2 : Bytes) (id id2 : ℕ) (w w' : World) (e : Error)
      → w.session.info.connected ≡ false
      → w.session_pending ≡ false
      → KeepsFlag await
      → create_session serde ciphers await iv id w ≡ (w', err e)
      → w'.session.info.connected ≡ false
      → (w'.session_pending ≡ true)
        × (create_session serde ciphers await2 iv2 id2 w' ≡ (w', err already_pending))
  create_session_wedges await await2 iv iv2 id id2 w w' e c p keeps failed still =
      let up = failed_flag await iv id w w' e c p keeps failed in
      (up, pending_refuses await2 iv2 id2 w' still up)

  -- What a handshake hands out is in the session that it leaves.
  pub create_session_hands_out :
      (await : Await) (iv : Bytes) (id : ℕ) (w w' : World) (accounts : List Address) (chain : ℕ)
      → create_session serde ciphers await iv id w ≡ (w', ok (accounts, chain))
      → (accounts ≡ w'.session.info.accounts) × (chain ≡ unwrap_or w'.session.info.chain_id 0)
  unfolding Session.apply
  create_session_hands_out await iv id w w' accounts chain e =
      let (tx, w1, v, params, s, got, accepted, reads, session, flag, a, c) =
        create_session_ok await iv id w w' accounts chain e in
      (
        a ∙ sym (ap (λ x. x.info.accounts) session),
        c ∙ sym (ap (λ x. unwrap_or x.info.chain_id 0) session),
      )
