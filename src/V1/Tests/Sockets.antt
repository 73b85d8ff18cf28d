-- ===== src/V1/Tests/Sockets.antt =====
-- Runs of the requests, the handlers and the tasks of wallet-connect/src/client/socket.rs.
use play_cpp_sdk.Prelude.{ℕ, ◌≡◌, refl, none, some, [], ◌∷◌, ◌++◌, arith, if◌then◌else◌, ◌==◌}
use play_cpp_sdk.Prelude.Text.{Text, Bytes, text_eq, codes}
use play_cpp_sdk.Prelude.Assoc.{lookup}
use play_cpp_sdk.Rust.Effect.{ok}
use play_cpp_sdk.V1.Protocol.{new_request, SocketMessage, EncryptionPayload, publish, into_value}
use play_cpp_sdk.V1.Crypto.{open_sealed, hmac_sha256}
use play_cpp_sdk.V1.Context.{World}
use play_cpp_sdk.V1.Socket.{start_request, handle_response, check_socket_msg}
use play_cpp_sdk.V1.Socket.Requests.{start, request_sends}
use play_cpp_sdk.V1.Socket.Delivery.{reply, replied, handle_response_routes, check_socket_msg_sound}
use play_cpp_sdk.V1.Tests.{
  ciphers, ciphers-IsSound, sixteen, key, serde, idle, full, waits, hangs, write, write_fails, read,
  message, payload, update_message, session_update, client_with,
}
use play_cpp_sdk.V1.Tests

abbrev method : Text
method = codes "eth_sign"

abbrev body : Text
body = codes "hello"

abbrev read_cipher : EncryptionPayload → Bytes
read_cipher p = p.encrypted

request_sends_example :
    (p : EncryptionPayload) × (open_sealed ciphers idle.session.info.key.raw p ≡ ok body)
    × ((start serde ciphers write read waits sixteen 3 method body idle).1 ≡ ok idle.next_oneshot)
    × ((start serde ciphers write read waits sixteen 3 method body idle).0.queue
        ≡ idle.queue ++ (some 3, read_cipher p) ∷ [])
    × (lookup 3 (start serde ciphers write read waits sixteen 3 method body idle).0.pending_requests
        ≡ some idle.next_oneshot)
unfolding new_request
request_sends_example =
    request_sends serde ciphers write read waits sixteen 3 method body idle body read_cipher
      ciphers-IsSound refl refl (ground arith) refl refl (λ p. refl)

abbrev started : World
started = (start_request serde ciphers write sixteen 3 method body idle).0

handle_response_routes_example :
    let w' = handle_response serde ciphers Tests.reply full in
    let state = reply (into_value serde.error_to_value Tests.reply.outcome) in
    ((c : ℕ)
      → w'.oneshots c
        ≡ replied (lookup Tests.reply.id full.pending_requests) state c (full.oneshots c))
    × ((j : ℕ)
        → lookup j w'.pending_requests
          ≡ (if Tests.reply.id == j then none else lookup j full.pending_requests))
    × (w'.session ≡ full.session)
    × (w'.queue ≡ full.queue)
handle_response_routes_example = handle_response_routes serde ciphers Tests.reply full

check_socket_msg_sound_example :
    (msg : SocketMessage) × (p : EncryptionPayload) × (serde.read_socket_message sixteen ≡ some msg)
    × (msg.kind ≡ publish)
    × (msg.topic ≡ (codes "own"))
    × (msg.payload ≡ some p)
    × (hmac_sha256 ciphers key.raw p.iv p.encrypted ≡ p.hmac)
    × (open_sealed ciphers key.raw p ≡ ok (5 ∷ []))
unfolding check_socket_msg open_sealed hmac_sha256 text_eq
check_socket_msg_sound_example =
    check_socket_msg_sound serde ciphers sixteen key (codes "own") (5 ∷ []) refl
