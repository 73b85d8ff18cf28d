-- ===== src/V1/Interleaving/Requests.antt =====
-- A request, with whatever the other tasks do while it waits, is a sequence of steps; so the guarantees for
-- all interleavings cover it.
use play_cpp_sdk.Prelude.{
  ℕ, ◌≡◌, refl, true, Option, some, arith, leb, length, Bool-cases, Option-cases, inl, inr,
  unwrap_or,
}
use play_cpp_sdk.Prelude.Text.{Text, Bytes}
use play_cpp_sdk.Prelude.Assoc.{lookup}
use play_cpp_sdk.Rust.Effect.{Result, ok, err, panic, continue}
use play_cpp_sdk.V1.Protocol.{
  Value, Request, new_request, SocketMessage, publish, EncryptionPayload,
}
use play_cpp_sdk.V1.Crypto.{Ciphers, seal}
use play_cpp_sdk.V1.Context.{Serde, Error, World, dropped, settle, open_oneshot, remove_pending}
use play_cpp_sdk.V1.Context.Pending.{register}
use play_cpp_sdk.V1.Socket.{
  Await, Awaited, received, closed, elapsed, start_request, finish_request, finish_after,
  json_rpc_request, send_socket_msg,
}
use play_cpp_sdk.V1.Interleaving.{registers, refuses, sends, expires, Reach, here, next}

module _ (serde : Serde) (ciphers : Ciphers) where
  Reach-trans :
      {u v w : World} → Reach serde ciphers u v → Reach serde ciphers v w → Reach serde ciphers u w
  Reach-trans r here = r
  Reach-trans r (next s t) = next (Reach-trans r s) t

  -- Each wait of a request is filled with steps of the other tasks.
  abbrev pub Runs : Await → Type 0
  Runs await = (c : ℕ) (v : World) → Reach serde ciphers v (await c v).0

  abbrev pub message_of : World → EncryptionPayload → SocketMessage
  message_of w p = record {
    topic = unwrap_or w.session.info.peer_id w.session.info.handshake_topic;
    kind = publish;
    payload = some p;
    silent = true;
  }

  module _ {P R : Type 0} (write : Request P → Option Text) (read : Value → Option R) (iv : Bytes)
      (id : ℕ) (method : Text) (params : P) where
    start_request-Reach :
        (w : World)
        → Reach serde ciphers w (start_request serde ciphers write iv id method params w).0
    unfolding start_request
    start_request-Reach w =
        elim (Bool-cases (leb w.pending_requests_limit (length w.pending_requests))) [
          | inl full ↦
              let e : (start_request serde ciphers write iv id method params w).0
                  ≡ settle w.next_oneshot dropped (open_oneshot w) =
                ground arith in
              rw e (next here (refuses refl))
          | inr room ↦
              let r : World = register id w in
              let one : Reach serde ciphers w r = next here (registers id refl) in
              elim (Option-cases (write (new_request id method params))) [
                | inl bad ↦
                    let e : (start_request serde ciphers write iv id method params w).0 ≡ r =
                      ground arith in
                    rw e one
                | inr (body, good) ↦
                    elim (Option-cases (seal ciphers iv r.session.info.key.raw body)) [
                      | inl dies ↦
                          let e : (start_request serde ciphers write iv id method params w).0 ≡ r =
                            ground arith in
                          rw e one
                      | inr (p, sealed) ↦
                          let e : (start_request serde ciphers write iv id method params w).0
                              ≡ (send_socket_msg serde ciphers id (message_of r p) r).0 =
                            ground arith in
                          rw e (next one (sends id (message_of r p) refl))
                    ]
              ]
        ]

    finish_request-Reach :
        (outcome : Awaited) (w : World)
        → Reach serde ciphers w (finish_request serde ciphers read id outcome w).0
    unfolding finish_request
    finish_request-Reach (received v) w =
        let e : (finish_request serde ciphers read id (received v) w).0 ≡ w = ground arith in
        rw e here
    finish_request-Reach closed w = here
    finish_request-Reach elapsed w = elim (Option-cases (lookup id w.pending_requests)) [
      | inl gone ↦
          let e : (finish_request serde ciphers read id elapsed w).0 ≡ w = ground arith in rw e here
      | inr (ch, there) ↦
          let e : (finish_request serde ciphers read id elapsed w).0 ≡ remove_pending id w =
            ground arith in
          rw e (next here (expires id refl))
    ]

    after_start :
        (await : Await) (r : World × Result Error ℕ) (w : World)
        → Runs await
        → Reach serde ciphers w r.0
        → Reach serde ciphers w (continue r (finish_after serde ciphers read await id)).0
    after_start await (w1, ok tx) w runs r =
        Reach-trans (Reach-trans r (runs tx w1))
          (finish_request-Reach (await tx w1).1 (await tx w1).0)
    after_start await (w1, err e) w runs r = r
    after_start await (w1, panic) w runs r = r

    -- A whole request is a sequence of steps, with those of the other tasks that fill its wait.
    json_rpc_request-Reach :
        (await : Await) (w : World)
        → Runs await
        → Reach serde ciphers w
            (json_rpc_request serde ciphers write read await iv id method params w).0
    unfolding json_rpc_request
    json_rpc_request-Reach await w runs =
        after_start await (start_request serde ciphers write iv id method params w) w runs
          (start_request-Reach w)
