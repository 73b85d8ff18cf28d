-- ===== src/V1/Interleaving/Answers.antt =====
-- However the tasks of WalletConnect 1.0 interleave: where the answer to a request comes from.
use play_cpp_sdk.Prelude.{
  leb, length, ℕ, ◌≡◌, ◌≢◌, refl, sym, ◌∙◌, ap, ◌⊎◌, inl, inr, false, Option, some, [], ◌∷◌, ◌++◌,
  arith, Option-cases, Bool-cases,
}
use play_cpp_sdk.Prelude.Text.{Text, Bytes}
use play_cpp_sdk.Prelude.Assoc.{lookup}
use play_cpp_sdk.V1.Protocol.{Request, new_request, Value}
use play_cpp_sdk.V1.Crypto.{Ciphers, seal}
use play_cpp_sdk.V1.Context.{Serde, World, waiting, sent, enqueue}
use play_cpp_sdk.V1.Context.Pending.{
  register, register_pending, register-IsLinked, Same-IsLinked, IsLinked,
}
use play_cpp_sdk.V1.Socket.{
  Await, received, json_rpc_request, start_request, is_rejection, send_socket_msg, queue_error,
  bridge_error,
}
use play_cpp_sdk.V1.Interleaving.Accesses.{
  IsAnswer, read_frame-Sends, send_socket_msg-Sends, write_next-Sends,
}
use play_cpp_sdk.V1.Socket.Requests.{request_ok}
use play_cpp_sdk.V1.Interleaving.Requests.{message_of}
use play_cpp_sdk.Rust.Effect.{ok}
use play_cpp_sdk.V1.Interleaving.{
  Step, registers, refuses, sends, receives, writes, expires, applies, others, Reach, here, next,
}
use play_cpp_sdk.V1.Interleaving.Guarantees.{apply_session-Same}
use play_cpp_sdk.V1.Interleaving.Owned.{
  IsOwned, linked-IsOwned, Sends, Same-Sends, register-Sends, refuse-Sends, expire-Sends,
}

module _ (serde : Serde) (ciphers : Ciphers) (id ch : ℕ) (v : Value) where
  -- Where a value that a step sends to the request comes from: a frame that answers it, or the client's
  -- own error, when the queue or the websocket takes no message.
  abbrev pub Gives : {w w' : World} → Step serde ciphers w w' → Type 0
  Gives (receives key frame e) = IsAnswer serde ciphers id v key frame
  Gives (sends j msg e) = (j ≡ id) × (serde.text_to_value queue_error ≡ v)
  Gives (writes delivered x e) = serde.text_to_value bridge_error ≡ v
  Gives (registers j e) = ⊥
  Gives (refuses e) = ⊥
  Gives (expires j e) = ⊥
  Gives (applies params e) = ⊥
  Gives (others s) = ⊥

  abbrev pub Source : {w w' : World} → Reach serde ciphers w w' → Type 0
  Source here = ⊥
  Source (next r s) = Source r ⊎ Gives s

  Step-Sends :
      {w w' : World} (s : Step serde ciphers w w') → IsOwned id ch w → Sends id ch v (Gives s) w w'
  Step-Sends {w} (registers j e) o = rw e (register-Sends id ch v ⊥ j w o)
  Step-Sends {w} (refuses e) o = rw e (refuse-Sends id ch v ⊥ w o)
  Step-Sends {w} (sends j msg e) o = rw e (send_socket_msg-Sends serde ciphers id ch v j msg w o)
  Step-Sends {w} (receives key frame e) o =
      rw e (read_frame-Sends serde ciphers id ch v key frame w o)
  Step-Sends {w} {w'} (writes delivered x e) o =
      write_next-Sends serde ciphers id ch v w.queue delivered x w w' refl o e
  Step-Sends {w} (expires j e) o = rw e (expire-Sends id ch v ⊥ j w o)
  Step-Sends {w} (applies params e) o =
      rw e (Same-Sends id ch v ⊥ w _ (apply_session-Same serde ciphers params w) o)
  Step-Sends {w} {w'} (others s) o = Same-Sends id ch v ⊥ w w' s o

  pub Reach-Sends :
      {w w' : World} (r : Reach serde ciphers w w')
      → IsOwned id ch w
      → Sends id ch v (Source r) w w'
  Reach-Sends here o = (o, λ e. inl e)
  Reach-Sends {w} {w'} (next r s) o =
      let (o1, h1) = Reach-Sends r o in
      let (o2, h2) = Step-Sends s o1 in
      (
        o2,
        λ e. elim (h2 e) [
          | inl earlier ↦ elim (h1 earlier) [ inl old ↦ inl old | inr src ↦ inr (inl src) ]
          | inr now ↦ inr (inr now)
        ],
      )

  -- A pending request that holds a value in the end got it in the run.
  Reach-sourced :
      {w w' : World} (r : Reach serde ciphers w w')
      → IsLinked w
      → lookup id w.pending_requests ≡ some ch
      → w'.oneshots ch ≡ sent v
      → Source r
  Reach-sourced {w} r l there e = elim ((Reach-Sends r (linked-IsOwned id ch w l there)).1 e) [
    | inl old ↦ let unused = (l.unused id ch there).1 in absurd (waits (sym unused ∙ old))
    | inr src ↦ src
  ]
    where
      waits : waiting ≢ sent v
      waits q = cc

module _ (serde : Serde) (ciphers : Ciphers) where
  -- A wait that is filled with steps of the client's tasks, and ends with what the channel holds.
  pub record IsFilled (await : Await) : Type 0 where
    pub steps : (c : ℕ) (w : World) → Reach serde ciphers w (await c w).0
    pub holds :
        (c : ℕ) (w : World) (x : Value)
        → (await c w).1 ≡ received x
        → (await c w).0.oneshots c ≡ sent x

  module _ {P R : Type 0} (write : Request P → Option Text) (read : Value → Option R) (iv : Bytes)
      (id : ℕ) (method : Text) (params : P) where
    -- A request that waits has a channel of its own.
    pub start-IsLinked :
        (w w1 : World) (tx : ℕ)
        → IsLinked w
        → start_request serde ciphers write iv id method params w ≡ (w1, ok tx)
        → IsLinked w1 × (lookup id w1.pending_requests ≡ some tx)
    unfolding start_request send_socket_msg enqueue
    start-IsLinked w w1 tx l e =
        elim (Bool-cases (leb w.pending_requests_limit (length w.pending_requests))) [
          | inl full ↦ absurd (ground arith)
          | inr room ↦ elim (Option-cases (write (new_request id method params))) [
            | inl bad ↦ absurd (ground arith)
            | inr (body, good) ↦
                elim (Option-cases (seal ciphers iv (register id w).session.info.key.raw body)) [
                  | inl dies ↦ absurd (ground arith)
                  | inr (p, sealed) ↦
                      let r = register id w in
                      elim (Option-cases
                        (serde.write_socket_message (message_of serde ciphers r p))) [
                          | inl unsaid ↦ absurd (ground arith)
                          | inr (bytes, said) ↦ elim (Bool-cases r.queue_open) [
                            | inr shut ↦ absurd (ground arith)
                            | inl opened ↦ queued bytes (ground arith) (ground arith)
                          ]
                        ]
                ]
          ]
        ]
      where
        queued :
            (bytes : Bytes)
            → w1 ≡ record (register id w) { queue = (register id w).queue ++ (some id, bytes) ∷ [] }
            → tx ≡ w.next_oneshot
            → IsLinked w1 × (lookup id w1.pending_requests ≡ some tx)
        queued bytes becomes channel =
            let r = register id w in
            rw (becomes, channel)
              (
                Same-IsLinked r (record r { queue = r.queue ++ (some id, bytes) ∷ [] })
                    (record { pending = refl; oneshots = refl; next = refl })
                    (register-IsLinked id w l),
                ground (arith, register_pending id id w),
              )

    -- A request that succeeds while the client's tasks fill its wait in any order, from a state in
    -- which no channel is shared, returns what a value reads as that has not the code -32000 and was
    -- sent while the request waited: by a frame that opens under the key that it was read with, and
    -- holds a response with the request's own id and this value; or by the client, as its error that
    -- the queue or the websocket did not take a message.
    pub json_rpc_request_sourced :
        (await : Await) (filled : IsFilled await) (w w' : World) (result : R)
        → IsLinked w
        → json_rpc_request serde ciphers write read await iv id method params w ≡ (w', ok result)
        → (tx : ℕ) × (w1 : World) × (v : Value) × (start_request serde ciphers write iv id method
              params w
            ≡ (w1, ok tx))
          × (is_rejection (serde.code_of v) ≡ false)
          × (read v ≡ some result)
          × Source serde ciphers id tx v (filled.steps tx w1)
    json_rpc_request_sourced await filled w w' result l e =
        let (tx, w1, v, start, got, accepted, reads) =
          request_ok serde ciphers write read await iv id method params w w' result e in
        let (linked, there) = start-IsLinked w w1 tx l start in
        (
          tx,
          w1,
          v,
          start,
          accepted,
          reads,
          Reach-sourced serde ciphers id tx v (filled.steps tx w1) linked there
              (filled.holds tx w1 v (ap (λ x. x.1) got)),
        )
