-- ===== src/V2/Dispatch/History.antt =====
-- A client over the messages that it receives, in their order.
use play_cpp_sdk.Prelude.{
  ◌≡◌, refl, ap, Bool, true, false, some, List, [], ◌∷◌, ◌++◌, arith, Bool-cases, inl, inr,
}
use play_cpp_sdk.Prelude.Text.{Text, Bytes}
use play_cpp_sdk.Rust.Effect.{ok}
use play_cpp_sdk.Hex.{Hex}
use play_cpp_sdk.V1.Protocol.{Topic, Request}
use play_cpp_sdk.V1.Crypto.{Key}
use play_cpp_sdk.V2.Crypto.{Ciphers, decode_decrypt}
use play_cpp_sdk.V2.Protocol.{WcSessionSettle}
use play_cpp_sdk.V2.Session.{SessionInfo}
use play_cpp_sdk.V2.Session
use play_cpp_sdk.V2.Context.{Serde, World}
use play_cpp_sdk.V2.Handlers.Settled.{IsSettled}
use play_cpp_sdk.V2.Handlers.Changes.{stays, settles, updates, deletes, Proposed, unanswered, pairs}
use play_cpp_sdk.V2.Dispatch.{message_received}
use play_cpp_sdk.V2.Dispatch.Topics.{message_received-IsSettled}
use play_cpp_sdk.V2.Dispatch.Authority.{
  Change, unchanged, answered, requested, message_received-Change,
}

-- A message of the relay: the nonce that an answer is encrypted with, the topic, and the text.
pub record Received : Type 0 where
  pub nonce : Bytes
  pub topic : Topic
  pub message : Text

module _ (serde : Serde) (ciphers : Ciphers) (hex : Hex) (has_callback : Bool) where
  unfoldable pub receive : List Received → World → World
  unfolding message_received
  receive [] w = w
  receive (m ∷ ms) w =
      receive ms (message_received serde ciphers hex m.nonce has_callback m.topic m.message w).0

module _ (serde : Serde) (ciphers : Ciphers) where
  -- A request of the wallet to settle a session, under the pairing's key.
  pub record IsSettlement (m : Received) (s : SessionInfo) : Type 0 where
    pub key : Key
    pub plain : Bytes
    pub request : Request WcSessionSettle
    pub paired : s.pairing_topic_symkey ≡ some (m.topic, key)
    pub decrypts : decode_decrypt ciphers key m.message ≡ ok plain
    pub reads : serde.settle.read plain ≡ some request

module _ (serde : Serde) (ciphers : Ciphers) (hex : Hex) where
  proposal-connected :
      (plain : Bytes) (s s' : SessionInfo)
      → Proposed serde ciphers hex plain s s'
      → s'.connected ≡ s.connected
  unfolding Session.session_proposal_response
  proposal-connected plain s s' (unanswered e) = ap (λ x. x.connected) e
  proposal-connected plain s s' (pairs r accepted reads outcome e) = ap (λ x. x.connected) e

  connecting_settles :
      (m : Received) (s s' : SessionInfo)
      → Change serde ciphers hex m.topic m.message s s'
      → s.connected ≡ false
      → s'.connected ≡ true
      → IsSettlement serde ciphers m s
  unfolding Session.session_update Session.session_delete
  connecting_settles m s s' (unchanged e) off on = absurd (ground arith)
  connecting_settles m s s' (answered plain here decrypts p) off on =
      let kept = proposal-connected plain s s' p in absurd (ground arith)
  connecting_settles m s s' (requested key plain method paired decrypts names (stays e)) off on =
      absurd (ground arith)
  connecting_settles m s s' (requested key plain method paired decrypts names (settles r n reads e))
        off on =
      record {
        key = key;
        plain = plain;
        request = r;
        paired = paired;
        decrypts = decrypts;
        reads = reads;
      }
  connecting_settles m s s' (requested key plain method paired decrypts names (updates r n reads e))
        off on =
      absurd (ground arith)
  connecting_settles m s s' (requested key plain method paired decrypts names (deletes r n reads e))
        off on =
      absurd (ground arith)

module _ (serde : Serde) (ciphers : Ciphers) (hex : Hex) (has_callback : Bool) where
  -- A client that is connected after any messages in any order, and was not before them, received among
  -- them a request to settle the session, which decrypts under the key that the client had agreed on
  -- with the wallet when that message came, on the topic of that pairing.
  pub receive-IsSettlement :
      (ms : List Received) (w : World)
      → w.session.connected ≡ false
      → (receive serde ciphers hex has_callback ms w).session.connected ≡ true
      → (before : List Received) × (m : Received) × (behind : List Received) × (ms
          ≡ before ++ m ∷ behind)
        × IsSettlement serde ciphers m (receive serde ciphers hex has_callback before w).session
  unfolding receive
  receive-IsSettlement [] w off on = absurd (ground arith)
  receive-IsSettlement (m ∷ ms) w off on =
      let v = (message_received serde ciphers hex m.nonce has_callback m.topic m.message w).0 in
      elim (Bool-cases v.session.connected) [
        | inl now ↦
            let change =
              message_received-Change serde ciphers hex m.nonce has_callback m.topic m.message w in
            (
              [],
              m,
              ms,
              refl,
              connecting_settles serde ciphers hex m w.session v.session change off now,
            )
        | inr later ↦
            let (before, n, behind, e, settled) = receive-IsSettlement ms v later on in
            (m ∷ before, n, behind, ap (λ r. m ∷ r) e, settled)
      ]

  -- Whatever messages arrive, in any order and on any topics, and whichever of their tasks panic: if the
  -- session was not connected before them, or had the wallet's namespaces and metadata, then after them
  -- it is not connected or has both.
  pub receive-IsSettled :
      (ms : List Received) (w : World)
      → IsSettled w.session
      → IsSettled (receive serde ciphers hex has_callback ms w).session
  unfolding receive
  receive-IsSettled [] w settled = settled
  receive-IsSettled (m ∷ ms) w settled =
      let kept =
        message_received-IsSettled serde ciphers hex m.nonce has_callback m.topic m.message w
          settled in
      receive-IsSettled ms
        (message_received serde ciphers hex m.nonce has_callback m.topic m.message w).0 kept
