-- ===== src/V2/Connector/Outcomes.antt =====
-- How requests and the wait for a session end.
use play_cpp_sdk.Prelude.{
  ℕ, ◌≡◌, true, false, Option, none, some, [], ◌∷◌, ◌++◌, arith, unwrap_or, get_elem?, Option-cases,
  inl, inr,
}
use play_cpp_sdk.Prelude.Text.{Text, Bytes}
use play_cpp_sdk.Rust.Effect.{ok, err}
use play_cpp_sdk.V1.Protocol.{Value, Topic, Request, new_request}
use play_cpp_sdk.V1.Crypto.{Key}
use play_cpp_sdk.V2.Crypto.{Ciphers, encrypt_and_encode}
use play_cpp_sdk.V2.Protocol.{Namespaces, WcSessionPropose, WcSessionRequest, new_session_request}
use play_cpp_sdk.V2.Session
use play_cpp_sdk.V2.Method
use play_cpp_sdk.V2.Tag
use play_cpp_sdk.V2.Context.{
  Serde, World, register, send_or_fail, send_message, restore_subscription, publish, subscribe,
  no_pairing, ensure_session_fail,
}
use play_cpp_sdk.V2.Handlers.Settled.{IsSettled}
use play_cpp_sdk.V2.Connector.{
  Await, received, awaits_settle, ends, do_request, request, default_chain, get_safe_random,
  wait_value, ensure_session, propose, send_ping,
}
use play_cpp_sdk.V2.Client

-- The chain of a request: the first of the required ones, and Cronos if there is none.
abbrev pub chain_of : World → Text
chain_of w = unwrap_or (get_elem? w.session.required_namespaces.eip155.chains 0) default_chain

abbrev pub request_of : {P : Type 0} → World → ℕ → Text → P → Request (WcSessionRequest P)
request_of w random method params =
    new_request (get_safe_random random) Method.request
      (new_session_request method params (chain_of w))

-- The state in which a request waits: its id is pending and its envelope is queued.
abbrev pub asked : World → ℕ → Topic → Text → ℕ → World
asked w random t message tag =
    let v = register (get_safe_random random) w in
    record v { queue = w.queue ++ publish t message tag ∷ [] }

module _ (serde : Serde) (ciphers : Ciphers) where
  -- Without a pairing a request fails, and so does a ping: nothing is sent and nothing is pending.
  pub request_unpaired :
      {P R : Type 0} (write : Request (WcSessionRequest P) → Option Text) (read : Value → Option R)
      (write_ping : Request Value → Option Text) (await : Await) (nonce : Bytes) (random : ℕ)
      (method : Text) (params : P) (none_params : Value) (w : World)
      → w.session.pairing_topic_symkey ≡ none
      → (request serde ciphers write read await nonce random method params w ≡ (w, err no_pairing))
        × (send_ping serde ciphers write_ping await nonce random none_params w
            ≡ (w, err no_pairing))
  unfolding request send_ping
  request_unpaired write read write_ping await nonce random method params none_params w alone =
      (ground arith, ground arith)

  -- A request of a paired client that serialises, while the queue takes messages, waits in a state
  -- in which its id leads to a channel of its own and its envelope for the pairing's topic, with
  -- the first required chain, is sent behind all others; it returns what its response reads as.
  pub request_answered :
      {P R : Type 0} (write : Request (WcSessionRequest P) → Option Text) (read : Value → Option R)
      (await : Await) (nonce : Bytes) (random : ℕ) (method : Text) (params : P) (t : Topic)
      (key : Key) (text : Text) (value : Value) (result : R) (w v : World)
      → w.session.pairing_topic_symkey ≡ some (t, key)
      → write (request_of w random method params) ≡ some text
      → w.queue_open ≡ true
      → await w.next_oneshot
          (asked w random t (encrypt_and_encode ciphers nonce key text) Tag.request)
        ≡ (v, received value)
      → read value ≡ some result
      → request serde ciphers write read await nonce random method params w ≡ (v, ok result)
  unfolding request send_or_fail send_message register wait_value
  request_answered write read await nonce random method params t key text value result w v paired
        writes opened waits reads =
      ground arith

  -- A connected session that has the wallet's namespaces and a pairing, while the queue takes
  -- messages, is returned at once with its namespaces, and its topic is subscribed to.
  pub ensure_session_connected :
      (write : Request WcSessionPropose → Option Text) (await : Await) (nonce : Bytes) (random : ℕ)
      (t : Topic) (key : Key) (w : World)
      → w.session.connected ≡ true
      → IsSettled w.session
      → w.session.pairing_topic_symkey ≡ some (t, key)
      → w.queue_open ≡ true
      → (namespaces : Namespaces) × (w.session.namespaces ≡ some namespaces)
        × (Client.ensure_session serde ciphers write await nonce random w
            ≡ (record w { queue = w.queue ++ subscribe t ∷ [] }, ok (some namespaces)))
  unfolding IsSettled Client.ensure_session ensure_session restore_subscription send_message
  ensure_session_connected write await nonce random t key w conn settled paired opened =
      elim (Option-cases w.session.namespaces) [
        | inl bad ↦ absurd (ground arith)
        | inr (ns, good) ↦ (ns, good, ground arith)
      ]

  -- The state in which the proposal of a session waits for its response.
  abbrev pub proposed : World → ℕ → Bytes → Text → World
  proposed w random nonce text =
      asked (record w { queue = w.queue ++ subscribe w.session.session_proposal_topic ∷ [] }) random
        w.session.session_proposal_topic
        (encrypt_and_encode ciphers nonce w.session.session_proposal_symkey text)
        Tag.propose_request

  abbrev pub proposal : World → ℕ → Request WcSessionPropose
  proposal w random =
      new_request (get_safe_random random) Method.propose (Session.session_proposal w.session)

  -- A session that is not there is proposed, behind a subscription to the proposal's topic; a response
  -- without an error leaves the call waiting. It waits for a settlement that comes after the response
  -- was received, even if the session was settled while the call waited for the response: in the
  -- state that the response leaves, connected or not, the wait has not ended.
  pub ensure_session_waits :
      (write : Request WcSessionPropose → Option Text) (await : Await) (nonce : Bytes) (random : ℕ)
      (text : Text) (response : Value) (w v : World)
      → w.session.connected ≡ false
      → w.queue_open ≡ true
      → write (proposal w random) ≡ some text
      → await w.next_oneshot (proposed w random nonce text) ≡ (v, received response)
      → serde.get_error response ≡ none
      → (ensure_session serde ciphers write await nonce random w
          ≡ (v, ok (awaits_settle v.notified)))
        × (ends (awaits_settle v.notified) v ≡ false)
  unfolding ensure_session propose do_request send_or_fail send_message register wait_value
      Session.session_proposal
  ensure_session_waits write await nonce random text response w v conn opened writes waits fine =
      (ground arith, ground arith)

  -- A session that is not there is refused with the wallet's error, if its proposal serialises,
  -- the queue takes messages, and the response to the proposal has an error.
  pub ensure_session_refused :
      (write : Request WcSessionPropose → Option Text) (await : Await) (nonce : Bytes) (random : ℕ)
      (text : Text) (response error : Value) (w v : World)
      → w.session.connected ≡ false
      → w.queue_open ≡ true
      → write (proposal w random) ≡ some text
      → await w.next_oneshot (proposed w random nonce text) ≡ (v, received response)
      → serde.get_error response ≡ some error
      → Client.ensure_session serde ciphers write await nonce random w
        ≡ (v, err (ensure_session_fail error))
  unfolding Client.ensure_session ensure_session propose do_request send_or_fail send_message
      register wait_value Session.session_proposal
  ensure_session_refused write await nonce random text response error w v conn opened writes waits
        refused =
      ground arith
