-- ===== src/V2/Tests.antt =====
-- Concrete clients, messages and crates for the tests of wallet-connect/src/v2.
pub mod Wallets
pub mod Requests
pub mod Histories
pub mod Interleavings
use play_cpp_sdk.Prelude.{ℕ, ◌+◌, refl, Bool, true, false, Option, none, some, List, [], ◌∷◌}
use play_cpp_sdk.Prelude.Text.{Text, Bytes, codes}
use play_cpp_sdk.V1.Protocol.{Value, Request, Response, success, pos}
use play_cpp_sdk.V1.Crypto.{Key}
use play_cpp_sdk.V1.Tests.{key}
use play_cpp_sdk.V2.Crypto.{Ciphers, IsSound}
use play_cpp_sdk.V2.Protocol.{
  Metadata, RequiredNamespaces, Peer, Namespaces, WcSessionSettle, WcSessionUpdate, WcSessionDelete,
}
use play_cpp_sdk.V2.Session.{SessionInfo}
use play_cpp_sdk.V2.Context.{Codec, Serde, World, dropped}
use play_cpp_sdk.V2.Connector.{Await, received}

abbrev pub sum_bytes : Bytes → Bytes → Bytes
sum_bytes [] t = []
sum_bytes (x ∷ s) [] = []
sum_bytes (x ∷ s) (y ∷ t) = (x + y) ∷ sum_bytes s t

-- No encryption, and a shared secret that is a sum.
abbrev pub ciphers : Ciphers
ciphers = record {
  encrypt = λ k n m. m;
  decrypt = λ k n m. some m;
  encode_base64 = λ b. b;
  decode_base64 = λ t. some t;
  diffie_hellman = sum_bytes;
  expand_key = λ b. b;
  digest_sha256 = λ b. b;
}

pub ciphers-IsSound : IsSound ciphers
ciphers-IsSound = record { decrypt-encrypt = λ k n m. refl; decode-encode = λ b. refl }

abbrev pub metadata : Metadata
metadata = record { description = []; url = codes "u"; icons = []; name = codes "app" }

abbrev pub peer : Peer
peer = record { public_key = codes "00"; metadata = metadata }

abbrev pub namespaces : Namespaces
namespaces = record { eip155 = record { accounts = []; methods = []; events = [] } }

abbrev pub required : RequiredNamespaces
required = record { eip155 = record { methods = []; chains = []; events = [] } }

abbrev request_with : {T : Type 0} → T → Request T
request_with params = record { id = 9; jsonrpc = codes "2.0"; method = codes "m"; params = params }

abbrev pub settle_request : Request WcSessionSettle
settle_request = request_with (record {
  relay = record { protocol = codes "irn" };
  namespaces = namespaces;
  required_namespaces = required;
  controller = peer;
  expiry = pos 5;
})

abbrev pub update_request : Request WcSessionUpdate
update_request = request_with (record { namespaces = namespaces })

abbrev pub delete_request : Request WcSessionDelete
delete_request = request_with (record { code = pos 1; message = codes "bye" })

abbrev pub reply : Response Value
reply = record { id = 3; jsonrpc = codes "2.0"; outcome = success (codes "1") }

abbrev codec : {T : Type 0} → Option T → Codec T
codec r = record { read = λ b. r; write = λ t. some (codes "{}") }

abbrev serde_with : Option Value → Option Value → Serde
serde_with json error = record {
  read_json = λ b. json;
  get_method = λ v. none;
  get_error = λ v. error;
  as_str = λ v. some v;
  error_to_value = λ e. none;
  write_value = λ v. some v;
  write_ack = λ r. some (codes "true");
  read_response = λ b. some reply;
  read_propose_response = λ b. none;
  propose_response_to_value = λ r. none;
  settle = codec (some settle_request);
  event = codec none;
  delete = codec (some delete_request);
  update = codec (some update_request);
  extend = codec none;
  ping = codec none;
}

abbrev pub serde : Serde
serde = serde_with (some (codes "{}")) none

abbrev pub no_json : Serde
no_json = serde_with none none

abbrev pub refuses : Serde
refuses = serde_with (some (codes "{}")) (some (codes "refused"))

abbrev pub session_with : Bool → Option Namespaces → Option Peer → Option (Text × Key) → SessionInfo
session_with connected ns meta pairing = record {
  connected = connected;
  required_namespaces = required;
  namespaces = ns;
  relay_server = codes "wss://r/";
  project_id = codes "p";
  session_proposal_symkey = key;
  client_secret_key = key;
  client_meta = peer;
  pairing_topic_symkey = pairing;
  pairing_peer_meta = meta;
  session_proposal_topic = codes "prop";
  pairing_keypair = [];
  auth_jwt = [];
}

abbrev client_with : SessionInfo → List (ℕ × ℕ) → World
client_with session pending = record {
  context = record {
    session = session;
    notified = 0;
    pending_requests_timeout = 60000;
    pending_requests_limit = 2;
    pending_requests = pending;
    subscriptions = [];
  };
  oneshots = λ c. dropped;
  next_oneshot = 1;
  queue = [];
  queue_open = true;
  callbacks = [];
  callbacks_open = true;
}

abbrev pub fresh : World
fresh = client_with (session_with false none none none) []

abbrev pub paired : World
paired = client_with (session_with false none none (some (codes "pair", key))) ((3, 0) ∷ [])

abbrev pub settled : World
settled =
    client_with (session_with true (some namespaces) (some peer) (some (codes "pair", key))) []

abbrev pub waits : Await
waits c w = (w, received (codes "answer"))
