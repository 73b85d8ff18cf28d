-- ===== src/V2/Interleaving/Requests.antt =====
-- A request of the application over WalletConnect 2.0, with whatever the other tasks do while it
-- waits.
use play_cpp_sdk.Prelude.{
  ◌⊎◌, ap, ◌∙◌, ℕ, ◌≡◌, refl, Bool, Option, some, [], arith, Option-cases, Bool-cases, inl, inr,
}
use play_cpp_sdk.Prelude.Text.{Text, Bytes}
use play_cpp_sdk.Rust.Effect.{ok}
use play_cpp_sdk.Hex.{Hex}
use play_cpp_sdk.Prelude.Assoc.{lookup}
use play_cpp_sdk.V1.Protocol.{Value, Topic, Request}
use play_cpp_sdk.V1.Crypto.{Key}
use play_cpp_sdk.V2.Crypto.{Ciphers, encrypt_and_encode}
use play_cpp_sdk.V2.Protocol.{WcSessionRequest}
use play_cpp_sdk.V2.Tag
use play_cpp_sdk.V2.Context.{sent, Serde, World, publish, register, send_message, send_or_fail}
use play_cpp_sdk.V2.Context.Pending.{IsLinked, Same-Tracks, register-Tracks, register_pending}
use play_cpp_sdk.V2.Connector.{Await, Awaited, received, closed, request, get_safe_random}
use play_cpp_sdk.V2.Connector.Outcomes.{request_of}
use play_cpp_sdk.V2.Interleaving.{Pool, Reach}
use play_cpp_sdk.V2.Interleaving.Alone.{pool}
use play_cpp_sdk.V2.Interleaving.Channels.{send_message-Same}
use play_cpp_sdk.V2.Interleaving.Answers.{Source, Reach-answered}

Awaited-cases : (a : Awaited) → (a ≡ closed) ⊎ ((v : Value) × (a ≡ received v))
Awaited-cases closed = inl refl
Awaited-cases (received v) = inr (v, refl)

-- The state in which a request waits, where its envelope was sent.
abbrev pub waits_in : Ciphers → Bytes → ℕ → Topic → Key → Text → World → World
waits_in ciphers nonce random t key body w =
    send_message (publish t (encrypt_and_encode ciphers nonce key body) Tag.request)
      (register (get_safe_random random) w)

module _ (serde : Serde) (ciphers : Ciphers) (hex : Hex) (has_callback : Bool) where
  -- A wait that is filled with steps of the client, which starts it with no task, and ends with what the
  -- channel holds.
  pub record IsFilled (await : Await) : Type 0 where
    pub ends : ℕ → World → Pool
    pub steps : (c : ℕ) (v : World) → Reach serde ciphers hex has_callback (pool v []) (ends c v)
    pub leaves : (c : ℕ) (v : World) → (ends c v).world ≡ (await c v).0
    pub holds :
        (c : ℕ) (v : World) (x : Value)
        → (await c v).1 ≡ received x
        → (ends c v).world.oneshots c ≡ sent x

  waits_in-IsLinked :
      (nonce : Bytes) (random : ℕ) (t : Topic) (key : Key) (body : Text) (w : World)
      → IsLinked w
      → IsLinked (waits_in ciphers nonce random t key body w)
        × (lookup
              (get_safe_random random)
              (waits_in ciphers nonce random t key body w).pending_requests
            ≡ some w.next_oneshot)
  waits_in-IsLinked nonce random t key body w l =
      let v = register (get_safe_random random) w in
      let same =
        send_message-Same (publish t (encrypt_and_encode ciphers nonce key body) Tag.request) v in
      (
        (Same-Tracks v _ (register-Tracks (get_safe_random random) w l).0 same).0,
        ap (lookup (get_safe_random random)) same.pending
            ∙ ground (arith, register_pending (get_safe_random random) (get_safe_random random) w),
      )

  module _ {P R : Type 0} (write : Request (WcSessionRequest P) → Option Text)
      (read : Value → Option R) (nonce : Bytes) (random : ℕ) (method : Text) (params : P) where
    -- How a request succeeds.
    request_ok_inv :
        (await : Await) (w w' : World) (result : R)
        → request serde ciphers write read await nonce random method params w ≡ (w', ok result)
        → (t : Topic) × (key : Key) × (body : Text) × (v : Value) × (w.session.pairing_topic_symkey
            ≡ some (t, key))
          × (write (request_of w random method params) ≡ some body)
          × ((await w.next_oneshot (waits_in ciphers nonce random t key body w)).1 ≡ received v)
          × (read v ≡ some result)
    unfolding request send_or_fail
    request_ok_inv await w w' result e = elim (Option-cases w.session.pairing_topic_symkey) [
      | inl alone ↦ absurd (ground arith)
      | inr ((t, key), paired) ↦ elim (Option-cases (write (request_of w random method params))) [
        | inl bad ↦ absurd (ground arith)
        | inr (body, good) ↦ elim (Bool-cases w.queue_open) [
          | inr shut ↦ absurd (ground arith)
          | inl open_queue ↦
              elim (Awaited-cases
                (await w.next_oneshot (waits_in ciphers nonce random t key body w)).1) [
                  | inl gone ↦ absurd (ground arith)
                  | inr (v, got) ↦ (t, key, body, v, paired, good, got, ground arith)
                ]
        ]
      ]
    ]

    -- A request that succeeds while the client's tasks fill its wait in any order, and that starts from a
    -- state with no task and no channel shared, returns what a value reads as that a message of the
    -- relay gave it: the message arrived while the request waited, decrypts under a pairing's key on its
    -- topic, or a proposal's, that the client had meanwhile, and carries the request's own id.
    pub request_sourced :
        (await : Await) (filled : IsFilled await) (w w' : World) (result : R)
        → IsLinked w
        → request serde ciphers write read await nonce random method params w ≡ (w', ok result)
        → (t : Topic) × (key : Key) × (body : Text) × (v : Value) × (w.session.pairing_topic_symkey
            ≡ some (t, key))
          × (write (request_of w random method params) ≡ some body)
          × (read v ≡ some result)
          × Source serde ciphers hex has_callback
              (get_safe_random random)
              w.next_oneshot
              v
              (filled.steps w.next_oneshot (waits_in ciphers nonce random t key body w))
    request_sourced await filled w w' result l e =
        let (t, key, body, v, paired, good, got, reads) = request_ok_inv await w w' result e in
        let u = waits_in ciphers nonce random t key body w in
        let (linked, there) = waits_in-IsLinked nonce random t key body w l in
        (
          t,
          key,
          body,
          v,
          paired,
          good,
          reads,
          Reach-answered serde ciphers hex has_callback (get_safe_random random) w.next_oneshot v u
              linked there (filled.steps w.next_oneshot u) (filled.holds w.next_oneshot u v got),
        )
