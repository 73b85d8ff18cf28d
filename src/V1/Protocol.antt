-- ===== src/V1/Protocol.antt =====
-- wallet-connect/src/protocol/{topic,message,rpc}.rs: the payloads of WalletConnect 1.0. A URL, a
-- JSON value and a topic are the texts that they serialise to.
use play_cpp_sdk.Prelude.{ℕ, Bool, Option, some, List}
use play_cpp_sdk.Prelude.Text.{Text, Bytes, codes}
use play_cpp_sdk.Rust.Effect.{Result, ok, err}

abbrev pub Url : Type 0
Url = Text

-- A `serde_json::Value`, by the text that `serde_json::to_string` gives.
abbrev pub Value : Type 0
Value = Text

-- An Ethereum address: its twenty bytes.
abbrev pub Address : Type 0
Address = Bytes

abbrev pub Topic : Type 0
Topic = Text

-- `i64`: `negsuc n` is -(n + 1).
pub data I64 : Type 0 where
  pos : ℕ → I64
  negsuc : ℕ → I64

pub record EncryptionPayload : Type 0 where
  pub encrypted : Bytes
  pub hmac : Bytes
  pub iv : Bytes

-- `Pub` and `Sub`.
pub data SocketMessageKind : Type 0 where
  publish : SocketMessageKind
  subscribe : SocketMessageKind

pub record SocketMessage : Type 0 where
  pub topic : Topic
  pub kind : SocketMessageKind
  pub payload : Option EncryptionPayload
  pub silent : Bool

pub record Metadata : Type 0 where
  pub description : Text
  pub url : Url
  pub icons : List Url
  pub name : Text

pub data PeerMetadata : Type 0 where
  strict : Metadata → PeerMetadata
  malformed : Value → PeerMetadata

pub record SessionRequest : Type 0 where
  pub chain_id : Option ℕ
  pub peer_id : Topic
  pub peer_meta : Metadata

pub record SessionParams : Type 0 where
  pub approved : Bool
  pub accounts : List Address
  pub chain_id : ℕ
  pub peer_id : Topic
  pub peer_meta : PeerMetadata

pub record SessionUpdate : Type 0 where
  pub approved : Bool
  pub accounts : Option (List Address)
  pub chain_id : Option ℕ

pub record Request (T : Type 0) : Type 0 where
  pub id : ℕ
  pub jsonrpc : Text
  pub method : Text
  pub params : T

abbrev pub version_two : Text
version_two = codes "2.0"

unfoldable pub new_request : {T : Type 0} → ℕ → Text → T → Request T
new_request id method params = record {
  id = id;
  jsonrpc = version_two;
  method = method;
  params = params;
}

pub record RequestSessionUpdate : Type 0 where
  pub id : ℕ
  pub jsonrpc : Text
  pub method : Text
  pub params : List SessionUpdate

pub record JsonRpcError : Type 0 where
  pub code : I64
  pub message : Text
  pub more : Option Value

pub data ResponseData (R : Type 0) : Type 0 where
  failure : JsonRpcError → ResponseData R
  success : R → ResponseData R

pub record Response (T : Type 0) : Type 0 where
  pub id : ℕ
  pub jsonrpc : Text
  pub outcome : ResponseData T

unfoldable pub new_response : {T : Type 0} → ℕ → T → Response T
new_response id result = record { id = id; jsonrpc = version_two; outcome = success result }

unfoldable pub into_result : {R : Type 0} → ResponseData R → Result JsonRpcError R
into_result (success result) = ok result
into_result (failure error) = err error

-- The argument is `serde_json::to_value` on errors.
unfoldable pub into_value : (JsonRpcError → Option Value) → ResponseData Value → Option Value
into_value error_to_value (success result) = some result
into_value error_to_value (failure error) = error_to_value error

pub data BridgeServerMsg : Type 0 where
  session_update_request : RequestSessionUpdate → BridgeServerMsg
  response : Response Value → BridgeServerMsg
