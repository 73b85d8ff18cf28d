-- ===== src/V2/Tests/Histories.antt =====
-- A wallet that settles a session with a paired client.
use play_cpp_sdk.Prelude.{arith, ◌≡◌, refl, true, List, [], ◌∷◌, ◌++◌, some}
use play_cpp_sdk.Prelude.Text.{Text, codes, text_eq}
use play_cpp_sdk.V2.Crypto.{decode_decrypt, encrypt_and_encode, derive_symkey_topic}
use play_cpp_sdk.V2.Handlers.{handle_session_settle_request}
use play_cpp_sdk.V2.Context.{
  subscribe, Serde, send_response, with_session, notify_waiters, send_message,
}
use play_cpp_sdk.V2.Session
use play_cpp_sdk.V2.Dispatch.{message_received, on_pairing, handle_paired, handle_method}
use play_cpp_sdk.V2.Dispatch.Authority.{Change, message_received-Change}
use play_cpp_sdk.V2.Dispatch.History.{Received, receive, IsSettlement, receive-IsSettlement}
use play_cpp_sdk.Tests.{hex, hex_encode}
use play_cpp_sdk.V2.Tests.{ciphers, serde, paired, settled, sum_bytes}
use play_cpp_sdk.Rust.Effect.{ok}
use play_cpp_sdk.V1.Protocol.{Topic, Response, success}
use play_cpp_sdk.V1.Crypto.{Key}
use play_cpp_sdk.V1.Tests.{sixteen}
use play_cpp_sdk.V2.Protocol.{WcSessionProposeResponse}
use play_cpp_sdk.V2.Dispatch.Takeover.{proposal_response_replaces}

abbrev settling : Serde
settling = record serde { get_method = λ v. some v; as_str = λ v. some (codes "wc_sessionSettle") }

abbrev sealed : Text
sealed = 0 ∷ (1 ∷ 2 ∷ 3 ∷ 4 ∷ 5 ∷ 6 ∷ 7 ∷ 8 ∷ 9 ∷ 10 ∷ 11 ∷ 12 ∷ []) ++ codes "{}"

abbrev messages : List Received
messages =
    record { nonce = []; topic = codes "other"; message = sealed }
    ∷ record { nonce = []; topic = codes "pair"; message = sealed }
    ∷ []

message_received-Change_example :
    Change settling ciphers hex
      (codes "pair")
      sealed
      paired.session
      (message_received settling ciphers hex [] true (codes "pair") sealed paired).0.session
message_received-Change_example =
    message_received-Change settling ciphers hex [] true (codes "pair") sealed paired

receive-IsSettlement_example :
    (before : List Received) × (m : Received) × (behind : List Received) × (messages
      ≡ before ++ m ∷ behind)
    × IsSettlement settling ciphers m (receive settling ciphers hex true before paired).session
unfolding receive message_received on_pairing handle_paired handle_method decode_decrypt text_eq
    handle_session_settle_request send_response encrypt_and_encode with_session notify_waiters
    send_message Session.session_settle
receive-IsSettlement_example =
    receive-IsSettlement settling ciphers hex true messages paired refl refl

abbrev acceptance : WcSessionProposeResponse
acceptance = record {
  relay = record { protocol = codes "irn" };
  responder_public_key = hex_encode (sixteen ++ sixteen);
}

abbrev acceptance_response : Response WcSessionProposeResponse
acceptance_response = record { id = 9; jsonrpc = codes "2.0"; outcome = success acceptance }

abbrev accepting : Serde
accepting = record serde {
  read_propose_response = λ b. some acceptance_response;
  propose_response_to_value = λ r. some (codes "{}");
}

-- The pairing that follows from the wallet's key, with the tests' crates.
abbrev new_key : Key
new_key = record { raw = sum_bytes (sixteen ++ sixteen) (sixteen ++ sixteen) }

abbrev new_topic : Topic
new_topic = hex_encode (sum_bytes (sixteen ++ sixteen) (sixteen ++ sixteen))

proposal_response_replaces_example :
    let w' = (message_received accepting ciphers hex [] true (codes "prop") sealed settled).0 in
    (w'.session ≡ record settled.session { pairing_topic_symkey = some (new_topic, new_key) })
    × (w'.queue ≡ settled.queue ++ subscribe new_topic ∷ [])
    × (message_received accepting ciphers hex [] true (codes "pair") sealed w' ≡ (w', ok tt))
unfolding decode_decrypt derive_symkey_topic
proposal_response_replaces_example =
    proposal_response_replaces accepting ciphers hex true [] [] sealed sealed (codes "{}")
      acceptance_response acceptance (codes "{}") new_topic (codes "pair") new_key settled refl refl
      refl refl refl refl (λ e. ground arith) (λ e. ground arith)
