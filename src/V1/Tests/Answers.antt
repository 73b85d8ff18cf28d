-- ===== src/V1/Tests/Answers.antt =====
-- Requests of WalletConnect 1.0: one that the wallet answers while it waits, and one that it does not.
use play_cpp_sdk.Prelude.{ℕ, ◌≡◌, refl, false, some, [], ◌∷◌, arith}
use play_cpp_sdk.Prelude.Text.{codes, text_eq}
use play_cpp_sdk.Prelude.Assoc.{lookup, insert, erase}
use play_cpp_sdk.Rust.Effect.{ok}
use play_cpp_sdk.V1.Protocol.{Value, response, new_request}
use play_cpp_sdk.V1.Crypto.{seal, open_sealed, hmac_sha256}
use play_cpp_sdk.V1.Context.{
  Serde, World, Oneshot, waiting, sent, dropped, insert_pending, remove_pending, take_pending,
  open_oneshot, enqueue, settle, set_oneshot,
}
use play_cpp_sdk.V1.Context.Pending.{IsLinked}
use play_cpp_sdk.V1.Socket.{
  Await, Awaited, received, closed, is_rejection, start_request, json_rpc_request, handle,
  handle_response, check_socket_msg,
}
use play_cpp_sdk.V1.Tasks.{read_frame}
use play_cpp_sdk.V1.Interleaving.{here, next, receives}
use play_cpp_sdk.V1.Interleaving.Answers.{Source, IsFilled, json_rpc_request_sourced}
use play_cpp_sdk.V1.Interleaving.Slots.{IsFree, json_rpc_request_frees}
use play_cpp_sdk.V1.Tests.{ciphers, sixteen, key, idle, write, read, reply, serde, hangs}

abbrev responding : Serde
responding = record serde { read_bridge_msg = λ x. some (response reply) }

abbrev outcome : Oneshot → Awaited
outcome waiting = closed
outcome dropped = closed
outcome (sent v) = received v

outcome-eq-received : (o : Oneshot) (v : Value) → outcome o ≡ received v → o ≡ sent v
outcome-eq-received waiting v e = absurd (ground arith)
outcome-eq-received dropped v e = absurd (ground arith)
outcome-eq-received (sent u) v e = ground arith

abbrev answered_in : World → World
answered_in w = (read_frame responding ciphers key (5 ∷ []) w).0

abbrev reads_answer : Await
reads_answer c w = (answered_in w, outcome ((answered_in w).oneshots c))

reads_answer-IsFilled : IsFilled responding ciphers reads_answer
reads_answer-IsFilled = record {
  steps = λ c w. next here (receives key (5 ∷ []) refl);
  holds = λ c w x e. outcome-eq-received ((answered_in w).oneshots c) x e;
}

unpending-IsLinked : IsLinked idle
unfolding lookup
unpending-IsLinked = record {
  unused = λ id ch e. absurd (ground arith);
  own = λ i j ch e f. absurd (ground arith);
}

abbrev started : World
started = (start_request responding ciphers write sixteen 3 (codes "m") (codes "p") idle).0

answer_arrives :
    json_rpc_request responding ciphers write read reads_answer sixteen 3
      (codes "m")
      (codes "p")
      idle
    ≡ (answered_in started, ok (codes "1"))
unfolding json_rpc_request new_request seal insert_pending lookup insert erase open_oneshot enqueue
    read_frame check_socket_msg open_sealed hmac_sha256 text_eq handle handle_response take_pending
    remove_pending settle set_oneshot
answer_arrives = refl

json_rpc_request_sourced_example :
    (tx : ℕ) × (w1 : World) × (v : Value) × (start_request responding ciphers write sixteen 3
        (codes "m")
        (codes "p")
        idle
      ≡ (w1, ok tx))
    × (is_rejection (responding.code_of v) ≡ false)
    × (read v ≡ some (codes "1"))
    × Source responding ciphers 3 tx v (reads_answer-IsFilled.steps tx w1)
json_rpc_request_sourced_example =
    json_rpc_request_sourced responding ciphers write read sixteen 3 (codes "m") (codes "p")
      reads_answer reads_answer-IsFilled idle (answered_in started) (codes "1") unpending-IsLinked
      answer_arrives

hangs-IsFilled : IsFilled serde ciphers hangs
hangs-IsFilled = record { steps = λ c w. here; holds = λ c w x e. absurd (ground arith) }

-- The state that a request leaves whose time is over.
abbrev timed_out : World
timed_out =
    (json_rpc_request serde ciphers write read hangs sixteen 3 (codes "m") (codes "p") idle).0

abbrev unanswered : World
unanswered = (start_request serde ciphers write sixteen 3 (codes "m") (codes "p") idle).0

json_rpc_request_frees_example : IsLinked timed_out × IsFree 0 timed_out
unfolding start_request insert_pending lookup open_oneshot seal enqueue
json_rpc_request_frees_example =
    json_rpc_request_frees serde ciphers write read sixteen 3 (codes "m") (codes "p") hangs
      hangs-IsFilled (λ c w e. absurd (ground arith)) idle unanswered 0 unpending-IsLinked refl
