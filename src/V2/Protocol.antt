-- ===== src/V2/Protocol.antt =====
-- wallet-connect/src/v2/protocol.rs: the payloads of WalletConnect 2.0 and the tags of its messages.
use play_cpp_sdk.Prelude.{ℕ, List}
use play_cpp_sdk.Prelude.Text.{Text}
use play_cpp_sdk.V1.Protocol.{Address, I64}

pub record Metadata : Type 0 where
  pub description : Text
  pub url : Text
  pub icons : List Text
  pub name : Text

pub record Relay : Type 0 where
  pub protocol : Text

pub record Eip155 : Type 0 where
  pub methods : List Text
  pub chains : List Text
  pub events : List Text

pub record RequiredNamespaces : Type 0 where
  pub eip155 : Eip155

unfoldable pub new_required_namespaces : List Text → List Text → List Text → RequiredNamespaces
new_required_namespaces methods chains events = record {
  eip155 = record { methods = methods; chains = chains; events = events };
}

pub record Peer : Type 0 where
  pub public_key : Text
  pub metadata : Metadata

pub record WcSessionPropose : Type 0 where
  pub required_namespaces : RequiredNamespaces
  pub relays : List Relay
  pub proposer : Peer

pub record WcSessionProposeResponse : Type 0 where
  pub relay : Relay
  pub responder_public_key : Text

pub record Eip155AddressWithChainId : Type 0 where
  pub address : Address
  pub chain_id : ℕ

pub record NamespacesEip155 : Type 0 where
  pub accounts : List Eip155AddressWithChainId
  pub methods : List Text
  pub events : List Text

pub record Namespaces : Type 0 where
  pub eip155 : NamespacesEip155

unfoldable pub get_ethereum_addresses : Namespaces → List Eip155AddressWithChainId
get_ethereum_addresses n = n.eip155.accounts

pub record WcSessionSettle : Type 0 where
  pub relay : Relay
  pub namespaces : Namespaces
  pub required_namespaces : RequiredNamespaces
  pub controller : Peer
  pub expiry : I64

pub record WcSessionUpdate : Type 0 where
  pub namespaces : Namespaces

pub record WcSessionEventEvent : Type 0 where
  pub name : Text
  pub contents : List Text

pub record WcSessionEvent : Type 0 where
  pub event : WcSessionEventEvent
  pub chain_id : Text

-- `WcSessionPing` and `WcSessionExtend` have no field.
pub data WcSessionPing : Type 0 where
  ping_params : WcSessionPing

pub data WcSessionExtend : Type 0 where
  extend_params : WcSessionExtend

pub record WcSessionDelete : Type 0 where
  pub code : I64
  pub message : Text

pub record WcSessionRequestData (T : Type 0) : Type 0 where
  pub method : Text
  pub params : T

pub record WcSessionRequest (T : Type 0) : Type 0 where
  pub request : WcSessionRequestData T
  pub chain_id : Text

unfoldable pub new_session_request : {T : Type 0} → Text → T → Text → WcSessionRequest T
new_session_request method params chain_id = record {
  request = record { method = method; params = params };
  chain_id = chain_id;
}
