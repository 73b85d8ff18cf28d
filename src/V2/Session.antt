-- ===== src/V2/Session.antt =====
-- wallet-connect/src/v2/session.rs. The random choices of `SessionInfo::new` and the signed token are
-- arguments.
use play_cpp_sdk.Prelude.{Bool, false, Option, none, some, [], ◌∷◌, ◌++◌}
use play_cpp_sdk.Prelude.Text.{Text, Bytes, codes}
use mathlib.Core.Option
use play_cpp_sdk.Hex.{Hex}
use play_cpp_sdk.Hex
use play_cpp_sdk.V1.Crypto.{Key, display}
use play_cpp_sdk.V1.Protocol.{Url, Topic}
use play_cpp_sdk.V2.Crypto.{Ciphers, derive_symkey_topic}
use play_cpp_sdk.V2.Protocol.{
  Metadata, RequiredNamespaces, Peer, Namespaces, WcSessionPropose, WcSessionProposeResponse,
  WcSessionSettle, WcSessionUpdate,
}

pub record SessionInfo : Type 0 where
  pub connected : Bool
  pub required_namespaces : RequiredNamespaces
  pub namespaces : Option Namespaces
  pub relay_server : Url
  pub project_id : Text
  pub session_proposal_symkey : Key
  pub client_secret_key : Key
  pub client_meta : Peer
  pub pairing_topic_symkey : Option (Topic × Key)
  pub pairing_peer_meta : Option Peer
  pub session_proposal_topic : Topic
  pub pairing_keypair : Bytes
  pub auth_jwt : Text

-- What `new` draws: the signing key pair and the token that it signs for the relay, the X25519 key
-- pair, the proposal's key and its topic.
pub record Drawn : Type 0 where
  pub keypair : Bytes
  pub jwt_for : Text → Text
  pub client_secret : Key
  pub client_public : Bytes
  pub symkey : Key
  pub topic : Topic

-- `String::pop` on a copy: the text without its last character.
unfoldable pub pop_last : Text → Text
pop_last [] = []
pop_last (c ∷ []) = []
pop_last (c ∷ d ∷ s) = c ∷ pop_last (d ∷ s)

unfoldable pub new : Hex → Drawn → Url → Text → RequiredNamespaces → Metadata → SessionInfo
unfolding Hex.encode pop_last
new h d relay_server project_id required_namespaces metadata = record {
  connected = false;
  required_namespaces = required_namespaces;
  namespaces = none;
  relay_server = relay_server;
  project_id = project_id;
  session_proposal_symkey = d.symkey;
  client_secret_key = d.client_secret;
  client_meta = record { public_key = Hex.encode h d.client_public; metadata = metadata };
  pairing_topic_symkey = none;
  pairing_peer_meta = none;
  session_proposal_topic = d.topic;
  pairing_keypair = d.keypair;
  auth_jwt = d.jwt_for (pop_last relay_server);
}

unfoldable pub uri : Hex → SessionInfo → Text
unfolding display
uri h s =
    codes "wc:"
    ++ (s.session_proposal_topic
        ++ (codes "@2?symKey="
            ++ (display h s.session_proposal_symkey ++ codes "&relay-protocol=irn")))

unfoldable pub session_proposal : SessionInfo → WcSessionPropose
session_proposal s = record {
  required_namespaces = s.required_namespaces;
  relays = record { protocol = codes "irn" } ∷ [];
  proposer = s.client_meta;
}

unfoldable pub session_proposal_response :
    Ciphers → Hex → SessionInfo → WcSessionProposeResponse → SessionInfo × Option Topic
unfolding derive_symkey_topic
session_proposal_response c h s response =
    let pairing = derive_symkey_topic c h response.responder_public_key s.client_secret_key in
    (record s { pairing_topic_symkey = pairing }, Option.map (λ p. p.0) pairing)

unfoldable pub session_settle : SessionInfo → WcSessionSettle → SessionInfo
session_settle s settle = record s {
  pairing_peer_meta = some settle.controller;
  namespaces = some settle.namespaces;
}

unfoldable pub session_update : SessionInfo → WcSessionUpdate → SessionInfo
session_update s info = record s { namespaces = some info.namespaces }

unfoldable pub session_extend : SessionInfo → SessionInfo
session_extend s = s

unfoldable pub session_delete : SessionInfo → SessionInfo
session_delete s = record s {
  connected = false;
  pairing_topic_symkey = none;
  pairing_peer_meta = none;
  namespaces = none;
}
