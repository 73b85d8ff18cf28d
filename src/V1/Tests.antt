-- ===== src/V1/Tests.antt =====
-- Concrete clients, messages and crates for the tests of wallet-connect/src/client and of the modules
-- that it uses.
pub mod Sockets
pub mod Answers
pub mod Sessions
pub mod Texts
pub mod Clients
use play_cpp_sdk.Prelude.{
  ℕ, refl, true, false, ◌&&◌, Option, none, some, List, [], ◌∷◌, ◌++◌, length, ◌==◌,
}
use play_cpp_sdk.Prelude.Text.{Text, Bytes, codes}
use play_cpp_sdk.V1.Protocol.{
  Value, Request, SocketMessage, EncryptionPayload, SessionParams, SessionUpdate, PeerMetadata,
  malformed, session_update_request, RequestSessionUpdate, Metadata, publish, Response, success,
}
use play_cpp_sdk.V1.Crypto.{Ciphers, IsSound, Key}
use play_cpp_sdk.V1.Session.{Session, SessionInfo, Callbacks}
use play_cpp_sdk.V1.Context.{Serde, World, dropped}
use play_cpp_sdk.V1.Socket.{Await, received, closed, elapsed}

-- No encryption, and a tag that shows the key.
abbrev pub ciphers : Ciphers
ciphers = record {
  mac = λ k m. k ++ m;
  accepts = λ k iv. (length k == 32) && (length iv == 16);
  encrypt_padded = λ k iv m. m;
  decrypt_padded = λ k iv m. some m;
}

pub ciphers-IsSound : IsSound ciphers
ciphers-IsSound = record {
  accepts_lengths = λ k iv hk hiv. rw (hk, hiv) refl;
  decrypt-encrypt = λ k iv m taken. refl;
}

abbrev pub sixteen : Bytes
sixteen = 1 ∷ 2 ∷ 3 ∷ 4 ∷ 5 ∷ 6 ∷ 7 ∷ 8 ∷ 9 ∷ 10 ∷ 11 ∷ 12 ∷ 13 ∷ 14 ∷ 15 ∷ 16 ∷ []

abbrev pub key : Key
key = record { raw = sixteen ++ sixteen }

abbrev pub wallet : PeerMetadata
wallet = malformed (codes "{}")

abbrev pub session_params : SessionParams
session_params = record {
  approved = true;
  accounts = (7 ∷ []) ∷ [];
  chain_id = 25;
  peer_id = codes "peer";
  peer_meta = wallet;
}

abbrev pub session_update : SessionUpdate
session_update = record { approved = false; accounts = none; chain_id = some 1 }

abbrev pub update_message : RequestSessionUpdate
update_message = record {
  id = 9;
  jsonrpc = codes "2.0";
  method = codes "wc_sessionUpdate";
  params = session_update ∷ [];
}

abbrev pub payload : EncryptionPayload
payload = record { encrypted = 5 ∷ []; hmac = (sixteen ++ sixteen) ++ 5 ∷ sixteen; iv = sixteen }

abbrev pub message : SocketMessage
message = record { topic = codes "own"; kind = publish; payload = some payload; silent = true }

abbrev written : Option EncryptionPayload → Text → Option Bytes
written none topic = some topic
written (some p) topic = some p.encrypted

abbrev pub serde : Serde
serde = record {
  write_socket_message = λ m. written m.payload m.topic;
  read_socket_message = λ x. some message;
  read_bridge_msg = λ x. some (session_update_request update_message);
  error_to_value = λ e. none;
  text_to_value = λ s. s;
  code_of = λ v. none;
  write_session_request = λ r. some r.method;
  read_session_params = λ v. some session_params;
}

abbrev pub metadata : Metadata
metadata = record { description = []; url = codes "u"; icons = []; name = codes "app" }

abbrev pub info : SessionInfo
info = record {
  connected = false;
  accounts = [];
  chain_id = none;
  bridge = codes "http";
  key = key;
  client_id = codes "own";
  client_meta = metadata;
  peer_id = none;
  peer_meta = none;
  handshake_topic = codes "hand";
}

abbrev pub session : Session
session = record { info = info; callback_channel = some 0 }

abbrev pub callbacks : Callbacks
callbacks = record { is_open = λ c. true; sent = [] }

abbrev pub client_with : List (ℕ × ℕ) → ℕ → World
client_with pending next = record {
  context = record {
    session = session;
    session_pending = false;
    pending_requests_timeout = 60000;
    pending_requests_limit = 2;
    pending_requests = pending;
  };
  oneshots = λ c. dropped;
  next_oneshot = next;
  queue = [];
  queue_open = true;
  callbacks = callbacks;
}

abbrev pub idle : World
idle = client_with [] 0

abbrev pub full : World
full = client_with ((3, 0) ∷ (4, 1) ∷ []) 2

abbrev pub waits : Await
waits c w = (w, received (codes "answer"))

abbrev pub hangs : Await
hangs c w = (w, elapsed)

abbrev pub breaks : Await
breaks c w = (w, closed)

abbrev pub write : Request Text → Option Text
write r = some r.params

abbrev pub write_fails : Request Text → Option Text
write_fails r = none

abbrev pub read : Value → Option Text
read v = some v

abbrev pub reply : Response Value
reply = record { id = 3; jsonrpc = codes "2.0"; outcome = success (codes "1") }
