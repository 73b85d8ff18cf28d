-- ===== src/V2/Tests/Requests.antt =====
-- Runs of the requests and of the wait for a session of wallet-connect/src/v2/{core,client}.rs.
use play_cpp_sdk.Prelude.{◌≡◌, refl, false, Option, some, [], ◌∷◌, ◌++◌}
use play_cpp_sdk.Prelude.Text.{Text, Bytes, codes}
use play_cpp_sdk.Rust.Effect.{ok, err}
use play_cpp_sdk.V1.Protocol.{Value, Request, new_request}
use play_cpp_sdk.V2.Crypto.{encrypt_and_encode}
use play_cpp_sdk.V2.Protocol.{WcSessionRequest, WcSessionPropose, new_session_request}
use play_cpp_sdk.V2.Tag
use play_cpp_sdk.V2.Context.{World, no_pairing}
use play_cpp_sdk.V2.Connector.{request, send_ping, awaits_settle, ends, ensure_session}
use play_cpp_sdk.V2.Connector.Outcomes.{
  asked, proposed, request_unpaired, request_answered, ensure_session_waits,
}
use play_cpp_sdk.V1.Tests.{key}
use play_cpp_sdk.V2.Tests.{ciphers, serde, fresh, paired, waits}

abbrev write : Request (WcSessionRequest Text) → Option Text
write r = some (r.params.chain_id ++ r.params.request.params)

abbrev write_ping : Request Value → Option Text
write_ping r = some r.params

abbrev write_propose : Request WcSessionPropose → Option Text
write_propose r = some r.method

abbrev read : Value → Option Text
read v = some v

abbrev twelve : Bytes
twelve = 1 ∷ 2 ∷ 3 ∷ 4 ∷ 5 ∷ 6 ∷ 7 ∷ 8 ∷ 9 ∷ 10 ∷ 11 ∷ 12 ∷ []

abbrev method : Text
method = codes "eth_sign"

abbrev body : Text
body = codes "hello"

request_unpaired_example :
    (request serde ciphers write read waits twelve 5 method body fresh ≡ (fresh, err no_pairing))
    × (send_ping serde ciphers write_ping waits twelve 5 body fresh ≡ (fresh, err no_pairing))
request_unpaired_example =
    request_unpaired serde ciphers write read write_ping waits twelve 5 method body body fresh refl

abbrev asked_world : World
asked_world =
    asked paired 5 (codes "pair") (encrypt_and_encode ciphers twelve key (codes "eip155:25hello"))
      Tag.request

request_answered_example :
    request serde ciphers write read waits twelve 5 method body paired
    ≡ (asked_world, ok (codes "answer"))
unfolding new_request new_session_request
request_answered_example =
    request_answered serde ciphers write read waits twelve 5 method body (codes "pair") key
      (codes "eip155:25hello") (codes "answer") (codes "answer") paired asked_world refl refl refl
      refl refl

abbrev proposed_world : World
proposed_world = proposed serde ciphers fresh 5 twelve (codes "wc_sessionPropose")

ensure_session_waits_example :
    (ensure_session serde ciphers write_propose waits twelve 5 fresh
      ≡ (proposed_world, ok (awaits_settle proposed_world.notified)))
    × (ends (awaits_settle proposed_world.notified) proposed_world ≡ false)
unfolding new_request
ensure_session_waits_example =
    ensure_session_waits serde ciphers write_propose waits twelve 5 (codes "wc_sessionPropose")
      (codes "answer") fresh proposed_world refl refl refl refl refl
