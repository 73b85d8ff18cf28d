-- ===== src/V1/Interleaving/Slots.antt =====
-- However the tasks of WalletConnect 1.0 interleave: what a request leaves in the map.
use play_cpp_sdk.Prelude.{
  ℕ, ◌≡◌, ◌≢◌, refl, sym, ◌∙◌, none, Option, some, arith, Option-cases, inl, inr,
}
use play_cpp_sdk.Prelude.Text.{Text, Bytes}
use play_cpp_sdk.Prelude.Assoc.{lookup, lookup-erase}
use play_cpp_sdk.Rust.Effect.{ok}
use play_cpp_sdk.V1.Protocol.{Value, Request}
use play_cpp_sdk.V1.Crypto.{Ciphers}
use play_cpp_sdk.V1.Context.{Serde, World, waiting, sent, remove_pending}
use play_cpp_sdk.V1.Context.Pending.{IsLinked, removed-IsLinked}
use play_cpp_sdk.V1.Socket.{
  Await, Awaited, received, closed, elapsed, start_request, finish_request, json_rpc_request,
  queue_error,
}
use play_cpp_sdk.V1.Interleaving.{Reach-Tracks}
use play_cpp_sdk.V1.Interleaving.Owned.{IsOwned, linked-IsOwned}
use play_cpp_sdk.V1.Interleaving.Answers.{IsFilled, Reach-Sends, start-IsLinked}

-- No id leads to the channel.
abbrev pub IsFree : ℕ → World → Type 0
IsFree ch w = (j : ℕ) → lookup j w.pending_requests ≢ some ch

used-IsFree : (ch : ℕ) (w : World) → IsLinked w → w.oneshots ch ≢ waiting → IsFree ch w
used-IsFree ch w l used j there = used (l.unused j ch there).1

removed-IsFree : (id ch : ℕ) (w : World) → IsOwned id ch w → IsFree ch (remove_pending id w)
unfolding remove_pending
removed-IsFree id ch w o j there =
    absurd (ground (arith, lookup-erase j id w.pending_requests, o.only j))

missing-IsFree :
    (id ch : ℕ) (w : World) → IsOwned id ch w → lookup id w.pending_requests ≡ none → IsFree ch w
missing-IsFree id ch w o gone j there = absurd (ground (arith, o.only j))

sent-neq-waiting : (v : Value) → sent v ≢ waiting
sent-neq-waiting v e = cc

module _ (serde : Serde) (ciphers : Ciphers) where
  -- A wait that ends without a value ends because the sender is gone.
  abbrev pub Closes : Await → Type 0
  Closes await = (c : ℕ) (w : World) → (await c w).1 ≡ closed → (await c w).0.oneshots c ≢ waiting

  module _ {P R : Type 0} (write : Request P → Option Text) (read : Value → Option R) (iv : Bytes)
      (id : ℕ) (method : Text) (params : P) where
    finish-IsFree :
        (outcome : Awaited) (tx : ℕ) (w : World)
        → IsLinked w
        → IsOwned id tx w
        → ((v : Value) → outcome ≡ received v → w.oneshots tx ≡ sent v)
        → (outcome ≡ closed → w.oneshots tx ≢ waiting)
        → let w' = (finish_request serde ciphers read id outcome w).0 in IsLinked w' × IsFree tx w'
    unfolding finish_request
    finish-IsFree (received v) tx w l o holds closes =
        let e : (finish_request serde ciphers read id (received v) w).0 ≡ w = ground arith in
        rw e (l, used-IsFree tx w l (λ unused. sent-neq-waiting v (sym (holds v refl) ∙ unused)))
    finish-IsFree closed tx w l o holds closes = (l, used-IsFree tx w l (closes refl))
    finish-IsFree elapsed tx w l o holds closes =
        elim (Option-cases (lookup id w.pending_requests)) [
          | inl gone ↦
              let e : (finish_request serde ciphers read id elapsed w).0 ≡ w = ground arith in
              rw e (l, missing-IsFree id tx w o gone)
          | inr (ch, there) ↦
              let e : (finish_request serde ciphers read id elapsed w).0 ≡ remove_pending id w =
                ground arith in
              rw e (removed-IsLinked id w l, removed-IsFree id tx w o)
        ]

    -- A request that was sent and is over, with a result, an error or a timeout, while the client's tasks
    -- filled its wait in any order, from a state in which no channel is shared, is out of the map:
    -- no id leads to its channel any more, so it takes no slot and no later response reaches it. And
    -- no channel is shared in the state that it leaves.
    pub json_rpc_request_frees :
        (await : Await)
        → IsFilled serde ciphers await
        → Closes await
        → (w w1 : World) (tx : ℕ) → IsLinked w
        → start_request serde ciphers write iv id method params w ≡ (w1, ok tx)
        → let w' = (json_rpc_request serde ciphers write read await iv id method params w).0 in
          IsLinked w' × IsFree tx w'
    unfolding json_rpc_request
    json_rpc_request_frees await filled closes w w1 tx l started =
        let (linked, there) =
          start-IsLinked serde ciphers write read iv id method params w w1 tx l started in
        let run = filled.steps tx w1 in
        let error = serde.text_to_value queue_error in
        let owned =
          (Reach-Sends serde ciphers id tx error run (linked-IsOwned id tx w1 linked there)).0 in
        let kept = (Reach-Tracks serde ciphers linked run).0 in
        rw started (
          finish-IsFree (await tx w1).1 tx (await tx w1).0 kept owned (filled.holds tx w1)
            (closes tx w1))
