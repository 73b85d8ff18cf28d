-- ===== src/V1/Connector.antt =====
-- wallet-connect/src/client/{core,options}.rs: how a connector is made and what it is asked. The
-- random choices of `Topic::new`, `Key::random` and `thread_rng` are arguments.
pub mod Sessions
use mathlib.Core.Option
use play_cpp_sdk.Prelude.{
  ℕ, ◌+◌, ◌%◌, Bool, true, false, Option, none, some, List, [], if◌then◌else◌, unwrap_or,
}
use play_cpp_sdk.Prelude.Text.{Text, Bytes, text_eq, codes}
use play_cpp_sdk.Rust.Effect.{M, Result, ok, err, panic, ◌>>=◌, ◌>>◌, pure, fail, get}
use play_cpp_sdk.Hex.{Hex}
use play_cpp_sdk.V1.Protocol.{Value, Url, Topic, Address, Metadata, Request}
use play_cpp_sdk.V1.Crypto.{Ciphers, Key}
use play_cpp_sdk.V1.Uri.{Urls, Uri, into_parts}
use play_cpp_sdk.V1.Session.{SessionInfo, Session, Callbacks}
use play_cpp_sdk.V1.Session
use play_cpp_sdk.V1.Context.{
  Serde, Error, bad_scheme, connect_failed, World, new_context, with_session, dropped,
}
use play_cpp_sdk.V1.Socket.{Await, json_rpc_request}
use play_cpp_sdk.V1.Handshake.{create_session, subscribe_topic}

pub data Connection : Type 0 where
  bridge_url : Url → Connection
  full_uri : Uri → Connection

pub record Options : Type 0 where
  pub meta : Metadata
  pub connection : Connection
  pub chain_id : Option ℕ
  pub callback_channel : Option ℕ

-- `Connection::default()`: `none` where `unwrap` panics.
unfoldable pub default_connection : Urls → Option Connection
default_connection u =
    Option.map bridge_url (u.parse_url (codes "https://l.bridge.walletconnect.org"))

-- `Options::new`.
unfoldable pub new_options : Urls → Metadata → Option ℕ → Option Options
unfolding default_connection
new_options u meta chain_id =
    Option.map
      (λ c. record { meta = meta; connection = c; chain_id = chain_id; callback_channel = none })
      (default_connection u)

unfoldable pub with_uri : Metadata → Uri → Options
with_uri meta uri = record {
  meta = meta;
  connection = full_uri uri;
  chain_id = none;
  callback_channel = none;
}

-- What `Topic::new` and `Key::random` draw: the handshake topic, the key and the client's id.
pub record Drawn : Type 0 where
  pub topic : Topic
  pub key : Key
  pub client_id : Topic

abbrev connection_parts : Drawn → Connection → Topic × Url × Key
connection_parts d (bridge_url bridge) = (d.topic, bridge, d.key)
connection_parts d (full_uri uri) = into_parts uri

unfoldable pub options_session : Drawn → Options → Session
unfolding into_parts
options_session d o =
    let (handshake_topic, bridge, key) = connection_parts d o.connection in
    record {
      info = record {
        connected = false;
        accounts = [];
        chain_id = o.chain_id;
        bridge = bridge;
        key = key;
        client_id = d.client_id;
        client_meta = o.meta;
        peer_id = none;
        peer_meta = none;
        handshake_topic = handshake_topic;
      };
      callback_channel = none;
    }

-- The random number is any `u64`.
unfoldable pub get_safe_random : ℕ → ℕ
get_safe_random random_request_id = random_request_id % 9007199254740990 + 1

-- `set_scheme(_).unwrap()`.
abbrev set_to : Option Url → Result Error Url
set_to none = panic
set_to (some url) = ok url

-- `Connector::new_client` up to the connection: the scheme that the websocket is opened with.
unfoldable pub socket_url : Urls → Url → Result Error Url
socket_url u url =
    let scheme = u.scheme url in
    if text_eq scheme (codes "http")
    then set_to (u.set_scheme url (codes "ws"))
    else if text_eq scheme (codes "https")
    then set_to (u.set_scheme url (codes "wss"))
    else if text_eq scheme (codes "ws")
    then ok url
    else if text_eq scheme (codes "wss")
    then ok url
    else err (bad_scheme scheme)

-- The client state that a connection starts with.
unfoldable pub start_world : Session → Callbacks → World
unfolding new_context
start_world session callbacks = record {
  context = new_context session;
  oneshots = λ _. dropped;
  next_oneshot = 0;
  queue = [];
  queue_open = true;
  callbacks = callbacks;
}

abbrev subscribe_optional : Serde → Ciphers → Option Topic → M World Error (Unit {0})
subscribe_optional serde ciphers none = pure tt
subscribe_optional serde ciphers (some topic) = subscribe_topic serde ciphers topic

module _ (serde : Serde) (ciphers : Ciphers) (u : Urls) where
  -- `connects` says whether the websocket opens at a URL.
  unfoldable pub new_client : (Url → Bool) → Option Topic → Session → M World Error (Unit {0})
  unfolding socket_url subscribe_topic
  new_client connects handshake_topic session = do
    url ← (λ w. (w, socket_url u session.info.bridge))
    if connects url then pure tt else fail connect_failed
    subscribe_topic serde ciphers session.info.client_id
    subscribe_optional serde ciphers handshake_topic

  unfoldable pub restore : (Url → Bool) → SessionInfo → Callbacks → World × Result Error (Unit {0})
  unfolding new_client start_world
  restore connects info callbacks =
      let session : Session = record { info = info; callback_channel = none } in
      new_client connects (some info.handshake_topic) session (start_world session callbacks)

  abbrev options_topic : Connection → Option Topic
  options_topic (full_uri uri) = some uri.handshake_topic
  options_topic (bridge_url url) = none

  unfoldable pub new : (Url → Bool) → Drawn → Options → Callbacks → World × Result Error (Unit {0})
  unfolding new_client start_world options_session
  new connects d o callbacks =
      let session = options_session d o in
      new_client connects (options_topic o.connection) session (start_world session callbacks)

module _ (serde : Serde) (ciphers : Ciphers) where
  -- The lock and `event_connecting`.
  unfoldable pub notify_connecting : M World Error (Unit {0})
  notify_connecting w = elim (Session.event_connecting w.session w.callbacks) [
    | none ↦ (w, panic)
    | some cbs ↦ (record w { callbacks = cbs }, ok tt)
  ]

  -- The number is what `get_safe_random` draws from.
  unfoldable pub ensure_session : Await → Bytes → ℕ → M World Error (List Address × ℕ)
  unfolding notify_connecting create_session get_safe_random
  ensure_session await iv random = do
    w ← get
    let info = w.session.info
    let create = (do
      notify_connecting
      create_session serde ciphers await iv (get_safe_random random))
    if info.connected then pure (info.accounts, unwrap_or info.chain_id 0) else create

  -- `impl JsonRpcClient for Connector`.
  unfoldable pub request :
      {P R : Type 0}
      → (Request P → Option Text)
      → (Value → Option R)
      → Await
      → Bytes
      → ℕ
      → Text
      → P
      → M World Error R
  unfolding json_rpc_request get_safe_random
  request write read await iv random method params =
      json_rpc_request serde ciphers write read await iv (get_safe_random random) method params

unfoldable pub set_callback : ℕ → World → World
unfolding Session.set_callback
set_callback channel w = with_session (Session.set_callback w.session channel) w

-- `get_uri`: `none` where the URI's `expect` panics.
unfoldable pub get_uri : Urls → Hex → World → Option Uri
unfolding Session.uri
get_uri u h w = Session.uri u h w.session.info

unfoldable pub get_session_info : World → SessionInfo
get_session_info w = w.session.info
