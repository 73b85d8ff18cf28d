-- ===== src/V2/Tests/Interleavings.antt =====
-- Runs of a WalletConnect 2.0 client whose tasks interleave.
use play_cpp_sdk.Prelude.{◌≡◌, refl, true, false, Option, some, [], ◌∷◌, ◌++◌, arith}
use play_cpp_sdk.Prelude.Text.{Text, codes, text_eq}
use play_cpp_sdk.Prelude.Assoc.{lookup, insert}
use play_cpp_sdk.Rust.Effect.{ok, err}
use play_cpp_sdk.V1.Protocol.{Value, Topic, Request}
use play_cpp_sdk.V1.Crypto.{Key}
use play_cpp_sdk.V2.Crypto.{decode_decrypt, encrypt_and_encode}
use play_cpp_sdk.V2.Protocol.{WcSessionPropose, WcSessionRequest}
use play_cpp_sdk.V2.Context.{
  Serde, World, Oneshot, waiting, sent, dropped, no_pairing, register, send_message, send_or_fail,
}
use play_cpp_sdk.V2.Context.Pending.{IsLinked, Tracks}
use play_cpp_sdk.V2.Handlers.Settled.{IsSettled}
use play_cpp_sdk.V2.Dispatch.{message_received, on_pairing, handle_paired}
use play_cpp_sdk.V2.Handlers.{handle_normal_rpc_response}
use play_cpp_sdk.V2.Dispatch.History.{Received, receive}
use play_cpp_sdk.V2.Tasks.{
  message_actions, settle_actions, delete_actions, method_actions, paired_actions, pairing_actions,
}
use play_cpp_sdk.V2.Connector.{
  Await, Awaited, received, closed, established, ensure_session, get_safe_random, request,
}
use play_cpp_sdk.V2.Connector.Outcomes.{request_of}
use play_cpp_sdk.V2.Interleaving.{Pool, Reach}
use play_cpp_sdk.V2.Interleaving.Alone.{pool, receive-Reach, received-Reach}
use play_cpp_sdk.V2.Interleaving.Channels.{Reach-Keeps}
use play_cpp_sdk.V2.Interleaving.Sessions.{Reach-IsSettled}
use play_cpp_sdk.V2.Interleaving.Race.{settle_delete_wedges}
use play_cpp_sdk.V2.Interleaving.Answers.{Source}
use play_cpp_sdk.V2.Interleaving.Requests.{IsFilled, waits_in, request_sourced}
use play_cpp_sdk.Tests.{hex}
use play_cpp_sdk.V1.Tests.{key}
use play_cpp_sdk.V2.Tests.{ciphers, serde, paired, settled, waits, settle_request, delete_request}

-- A text that names its own method.
abbrev by_name : Serde
by_name = record serde { read_json = λ b. some b; get_method = λ v. some v }

abbrev envelope : Text → Text
envelope plain = 0 ∷ (1 ∷ 2 ∷ 3 ∷ 4 ∷ 5 ∷ 6 ∷ 7 ∷ 8 ∷ 9 ∷ 10 ∷ 11 ∷ 12 ∷ []) ++ plain

abbrev message_of : Text → Received
message_of plain = record { nonce = []; topic = codes "pair"; message = envelope plain }

abbrev settling : Received
settling = message_of (codes "wc_sessionSettle")

abbrev deleting : Received
deleting = message_of (codes "wc_sessionDelete")

abbrev answering : Received
answering = message_of (codes "{}")

-- A paired client whose request 3 waits.
abbrev asking : World
asking = record paired { oneshots = λ c. waiting }

asking-IsLinked : IsLinked asking
unfolding lookup
asking-IsLinked = record { unused = λ id ch e. ground arith; own = λ i j ch p q. ground arith }

Reach-Keeps_example :
    Tracks asking (receive serde ciphers hex true (answering ∷ answering ∷ []) asking)
Reach-Keeps_example =
    Reach-Keeps serde ciphers hex true asking-IsLinked
      (receive-Reach serde ciphers hex true (answering ∷ answering ∷ []) asking)

Reach-IsSettled_example :
    IsSettled (receive by_name ciphers hex true (deleting ∷ settling ∷ []) settled).session
unfolding IsSettled
Reach-IsSettled_example =
    Reach-IsSettled by_name ciphers hex true {p = pool settled []} refl
      (receive-Reach by_name ciphers hex true (deleting ∷ settling ∷ []) settled)

abbrev write : Request (WcSessionRequest Text) → Option Text
write r = some (codes "request")

abbrev propose : Request WcSessionPropose → Option Text
propose r = some (codes "wc_sessionPropose")

settle_delete_wedges_example :
    ((p : Pool) × Reach by_name ciphers hex true (pool paired []) p
      × (p.tasks ≡ [])
      × (p.world.session.connected ≡ true)
      × (ensure_session by_name ciphers propose waits [] 5 p.world ≡ (p.world, ok established))
      × (request by_name ciphers write some waits [] 5 (codes "eth_sign") (codes "hello") p.world
          ≡ (p.world, err no_pairing)))
    × ((receive by_name ciphers hex true (settling ∷ deleting ∷ []) paired).session.connected
        ≡ false)
    × ((receive by_name ciphers hex true (deleting ∷ settling ∷ []) paired).session.connected
        ≡ false)
unfolding message_actions pairing_actions paired_actions method_actions settle_actions
    delete_actions decode_decrypt text_eq
settle_delete_wedges_example =
    settle_delete_wedges by_name ciphers hex true settling deleting settle_request delete_request
      (codes "true") paired refl refl refl write (λ v. some v) propose waits [] 5 (codes "eth_sign")
      (codes "hello")

-- A wait in which the wallet's answer arrives and is handled.
abbrev outcome : Oneshot → Awaited
outcome waiting = closed
outcome dropped = closed
outcome (sent v) = received v

outcome-eq-received : (o : Oneshot) (v : Value) → outcome o ≡ received v → o ≡ sent v
outcome-eq-received waiting v e = absurd (ground arith)
outcome-eq-received dropped v e = absurd (ground arith)
outcome-eq-received (sent u) v e = ground arith

abbrev answered_by : World → World
answered_by w = (message_received serde ciphers hex [] true (codes "pair") answering.message w).0

abbrev answering_wait : Await
answering_wait c w = (answered_by w, outcome ((answered_by w).oneshots c))

answering_wait-IsFilled : IsFilled serde ciphers hex true answering_wait
answering_wait-IsFilled = record {
  ends = λ c w. pool (answered_by w) [];
  steps = λ c w. received-Reach serde ciphers hex true answering [] w;
  leaves = λ c w. refl;
  holds = λ c w x e. outcome-eq-received ((answered_by w).oneshots c) x e;
}

abbrev waiting_in : World
waiting_in = waits_in ciphers [] 2 (codes "pair") key (codes "request") asking

abbrev after_request : World
after_request = answered_by waiting_in

request_succeeds :
    request serde ciphers write
      (λ v. some v)
      answering_wait
      []
      2
      (codes "eth_sign")
      (codes "hello")
      asking
    ≡ (after_request, ok (codes "1"))
unfolding request message_received on_pairing handle_paired decode_decrypt text_eq register
    send_message send_or_fail handle_normal_rpc_response lookup insert encrypt_and_encode
request_succeeds = refl

request_sourced_example :
    (t : Topic) × (key' : Key) × (body : Text) × (v : Value) × (asking.session.pairing_topic_symkey
      ≡ some (t, key'))
    × (write (request_of asking 2 (codes "eth_sign") (codes "hello")) ≡ some body)
    × (some v ≡ some (codes "1"))
    × Source serde ciphers hex true (get_safe_random 2) asking.next_oneshot v (
        answering_wait-IsFilled.steps asking.next_oneshot
          (waits_in ciphers [] 2 t key' body asking))
request_sourced_example =
    request_sourced serde ciphers hex true write (λ v. some v) [] 2 (codes "eth_sign")
      (codes "hello") answering_wait answering_wait-IsFilled asking after_request (codes "1")
      asking-IsLinked request_succeeds
