-- ===== src/V2/Connector.antt =====
-- `Connector` of wallet-connect/src/v2/core.rs and `Client` of wallet-connect/src/v2/client.rs. What
-- the other tasks do while a request waits is the argument `Await`.
pub mod Outcomes
use play_cpp_sdk.Prelude.{
  ℕ, ◌+◌, ◌%◌, Bool, true, false, Option, none, some, [], ◌∷◌, if◌then◌else◌, unwrap_or, get_elem?,
  ◌==◌,
}
use play_cpp_sdk.Prelude.Text.{Text, Bytes, codes}
use play_cpp_sdk.Rust.Effect.{M, Result, ok, err, ◌>>=◌, ◌>>◌, pure, fail, get, modify, or_fail}
use play_cpp_sdk.Hex.{Hex}
use play_cpp_sdk.V1.Protocol.{Value, Topic, Request, new_request}
use play_cpp_sdk.V1.Crypto.{Key}
use play_cpp_sdk.V2.Crypto.{Ciphers, encrypt_and_encode}
use play_cpp_sdk.V2.Protocol.{WcSessionPropose, WcSessionRequest, new_session_request}
use play_cpp_sdk.V2.Session.{SessionInfo, pop_last}
use play_cpp_sdk.V2.Session
use play_cpp_sdk.V2.Method
use play_cpp_sdk.V2.Tag
use play_cpp_sdk.V2.Context.{
  Serde, Error, serialization, channel_closed, no_pairing, unparsable, ensure_session_fail,
  connect_failed, dropped, ConnectorMessage, publish, subscribe, World, new_context, register,
  send_or_fail, restore_subscription,
}

-- How the wait on a one-shot channel ends; there is no time limit.
pub data Awaited : Type 0 where
  received : Value → Awaited
  closed : Awaited

abbrev pub Await : Type 0
Await = ℕ → World → World × Awaited

-- The random number is any `u64`.
unfoldable pub get_safe_random : ℕ → ℕ
get_safe_random random_request_id = random_request_id % 9007199254740990 + 1

-- Where `ensure_session` has come to: the session is there, or it waits for a call of
-- `notify_waiters` behind those that were made so far.
pub data Progress : Type 0 where
  established : Progress
  awaits_settle : ℕ → Progress

-- The wait of `ensure_session` is over.
abbrev pub ends : Progress → World → Bool
ends established w = true
ends (awaits_settle n) w = elim (w.notified == n) [ true ↦ false | false ↦ true ]

abbrev pub default_chain : Text
default_chain = codes "eip155:25"

-- `if let Some(error) = response.get("error")`.
abbrev refuse_error : Option Value → M World Error (Unit {0})
refuse_error none = pure tt
refuse_error (some error) = fail (ensure_session_fail error)

module _ (serde : Serde) (ciphers : Ciphers) where
  wait_value : Awaited → M World Error Value
  wait_value (received v) = pure v
  wait_value closed = fail channel_closed

  -- The arguments are the serialiser of the request, the wait, the nonce and the random number.
  unfoldable pub do_request :
      {T : Type 0}
      → (Request T → Option Text)
      → Await
      → Bytes
      → ℕ
      → Topic
      → Key
      → Text
      → T
      → ℕ
      → M World Error Value
  unfolding encrypt_and_encode register send_or_fail wait_value get_safe_random
  do_request write await nonce random topic key method params tag = do
    let request_id = get_safe_random random
    request_str ← or_fail (write (new_request request_id method params)) serialization
    let message = encrypt_and_encode ciphers nonce key request_str
    start ← get
    modify (register request_id)
    send_or_fail (publish topic message tag)
    w ← get
    let (w', outcome) = await start.next_oneshot w
    modify (λ _. w')
    wait_value outcome

  -- `params` is the empty JSON object.
  unfoldable pub send_ping :
      (Request Value → Option Text) → Await → Bytes → ℕ → Value → M World Error Text
  unfolding do_request
  send_ping write await nonce random params = do
    w ← get
    pairing ← or_fail w.session.pairing_topic_symkey no_pairing
    packet ←
        do_request write await nonce random pairing.0 pairing.1 Method.ping params Tag.ping_request
    or_fail (serde.write_value packet) serialization

  propose : (Request WcSessionPropose → Option Text) → Await → Bytes → ℕ → M World Error Progress
  unfolding do_request send_or_fail Session.session_proposal
  propose write await nonce random = do
    w ← get
    let topic = w.session.session_proposal_topic
    send_or_fail (subscribe topic)
    response ←
        do_request write await nonce random topic w.session.session_proposal_symkey Method.propose
          (Session.session_proposal w.session) Tag.propose_request
    refuse_error (serde.get_error response)
    w' ← get
    pure (awaits_settle w'.notified)

  unfoldable pub ensure_session :
      (Request WcSessionPropose → Option Text) → Await → Bytes → ℕ → M World Error Progress
  unfolding propose restore_subscription
  ensure_session write await nonce random = do
    w ← get
    if w.session.connected
        then (do restore_subscription serde ciphers; pure established)
        else propose write await nonce random

  -- `impl JsonRpcClient for Connector`.
  unfoldable pub request :
      {P R : Type 0}
      → (Request (WcSessionRequest P) → Option Text)
      → (Value → Option R)
      → Await
      → Bytes
      → ℕ
      → Text
      → P
      → M World Error R
  unfolding encrypt_and_encode register send_or_fail wait_value get_safe_random new_session_request
  request write read await nonce random method params = do
    start ← get
    let chain_id =
        unwrap_or (get_elem? start.session.required_namespaces.eip155.chains 0) default_chain
    pairing ← or_fail start.session.pairing_topic_symkey no_pairing
    let request_id = get_safe_random random
    let req = new_request request_id Method.request (new_session_request method params chain_id)
    request_str ← or_fail (write req) serialization
    modify (register request_id)
    send_or_fail
        (publish pairing.0 (encrypt_and_encode ciphers nonce pairing.1 request_str) Tag.request)
    w ← get
    let (w', outcome) = await start.next_oneshot w
    modify (λ _. w')
    response ← wait_value outcome
    or_fail (read response) unparsable

-- The client state that a connection starts with.
unfoldable pub start_world : SessionInfo → Bool → World
unfolding new_context
start_world session callbacks_open = record {
  context = new_context session;
  oneshots = λ _. dropped;
  next_oneshot = 0;
  queue = [];
  queue_open = true;
  callbacks = [];
  callbacks_open = callbacks_open;
}

-- `Connector::new_client`: the relay is reached at its URL without the last character.
unfoldable pub new_client : (Text → Bool) → SessionInfo → Bool → Result Error World
unfolding start_world pop_last
new_client connects session callbacks_open =
    if connects (pop_last session.relay_server)
    then ok (start_world session callbacks_open)
    else err connect_failed

-- One round of the task loop: the relay's answer to a subscription is an argument.
unfoldable pub task_step : (Topic → Option Text) → ConnectorMessage → World → World
task_step subscribe_topic (publish topic message tag) w = w
task_step subscribe_topic (subscribe topic) w = elim (subscribe_topic topic) [
  | none ↦ w
  | some id ↦ record w {
    context = record w.context { subscriptions = (topic, id) ∷ w.subscriptions };
  }
]

unfoldable pub get_uri : Hex → World → Text
unfolding Session.uri
get_uri h w = Session.uri h w.session

unfoldable pub get_session_info : World → SessionInfo
get_session_info w = w.session
