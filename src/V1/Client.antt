-- ===== src/V1/Client.antt =====
-- `Client` and `WCMiddleware` of wallet-connect/src/client.rs: the wrapper around the connector that a
-- program uses. The callback channel of a client is set in its session by `ensure_session`.
pub mod Reports
pub mod Dispatch
use play_cpp_sdk.Prelude.{ℕ, Bool, Option, none, some, List, [], ◌∷◌, ◌++◌}
use mathlib.Core.Option
use play_cpp_sdk.Prelude.Text.{Text, Bytes, codes}
use play_cpp_sdk.Rust.Effect.{M, Result, ok, err, panic, ◌>>=◌, ◌>>◌, modify, or_fail}
use play_cpp_sdk.Hex.{Hex}
use play_cpp_sdk.Hex
use play_cpp_sdk.V1.Protocol.{Value, Url, Address, Metadata, Request, JsonRpcError}
use play_cpp_sdk.V1.Crypto.{Ciphers}
use play_cpp_sdk.V1.Uri.{Urls, Uri}
use play_cpp_sdk.V1.Uri
use play_cpp_sdk.V1.Session.{SessionInfo, Callbacks, ClientChannelMessage, disconnected}
use play_cpp_sdk.V1.Context.{Serde, Error, World, bad_signature}
use play_cpp_sdk.V1.Socket.{Await}
use play_cpp_sdk.V1.Connector.{Drawn, Options, new_options}
use play_cpp_sdk.V1.Connector
use play_cpp_sdk.Middleware.{TypedTransaction, Ethers, TxObject, WcError, request_failed}
use play_cpp_sdk.Middleware

-- A clone of a client shares the connection and has its own callback channel.
pub record Client : Type 0 where
  pub connection : World
  pub callback_channel : Option ℕ

-- `ClientChannelMessage::default()`.
unfoldable pub default_message : ClientChannelMessage
default_message = record { state = disconnected; session = none }

abbrev pub made : Option ℕ → World × Result Error (Unit {0}) → Result Error Client
made channel (w, ok u) = ok (record { connection = w; callback_channel = channel })
made channel (w, err e) = err e
made channel (w, panic) = panic

module _ (serde : Serde) (ciphers : Ciphers) (u : Urls) (connects : Url → Bool) where
  unfoldable pub with_options : Drawn → Options → Callbacks → Result Error Client
  unfolding Connector.new
  with_options d options callbacks =
      made options.callback_channel (Connector.new serde ciphers u connects d options callbacks)

  abbrev with_default : Drawn → Callbacks → Option Options → Result Error Client
  with_default d callbacks none = panic
  with_default d callbacks (some options) = with_options d options callbacks

  -- A panic is that of the default bridge, if its URL does not parse.
  unfoldable pub new : Drawn → Metadata → Option ℕ → Callbacks → Result Error Client
  unfolding new_options
  new d meta chain_id callbacks = with_default d callbacks (new_options u meta chain_id)

  unfoldable pub restore : SessionInfo → Callbacks → Result Error Client
  unfolding Connector.restore
  restore session_info callbacks =
      made none (Connector.restore serde ciphers u connects session_info callbacks)

unfoldable pub get_session_info : Client → SessionInfo
unfolding Connector.get_session_info
get_session_info c = Connector.get_session_info c.connection

-- `none` where the URI's `expect` panics.
unfoldable pub get_connection_string : Urls → Hex → Client → Option Text
unfolding Connector.get_uri Uri.as_url
get_connection_string u h c = Option.map Uri.as_url (Connector.get_uri u h c.connection)

unfoldable pub set_callback : ℕ → Client → Client
set_callback channel c = record c { callback_channel = some channel }

module _ (serde : Serde) (ciphers : Ciphers) where
  abbrev pub install_callback : Option ℕ → World → World
  unfolding Connector.set_callback
  install_callback none w = w
  install_callback (some channel) w = Connector.set_callback channel w

  -- The write lock on the connection is held over all of it; the argument is the client's channel.
  unfoldable pub ensure_session : Option ℕ → Await → Bytes → ℕ → M World Error (List Address × ℕ)
  unfolding Connector.ensure_session
  ensure_session callback_channel await iv random = do
    modify (install_callback callback_channel)
    Connector.ensure_session serde ciphers await iv random

  -- `impl JsonRpcClient for Client`.
  unfoldable pub request :
      {P R : Type 0}
      → (Request P → Option Text)
      → (Value → Option R)
      → Await
      → Bytes
      → ℕ
      → Text
      → P
      → M World Error R
  unfolding Connector.request
  request write read await iv random method params =
      Connector.request serde ciphers write read await iv random method params

  -- The arguments are the text of an address, the serialiser of the request, the reader of the response, and
  -- the parser of a signature.
  unfoldable pub personal_sign :
      {Signature : Type 0}
      → Hex
      → (Address → Text)
      → (Request (List Text) → Option Text)
      → (Value → Option Text)
      → (Text → Option Signature)
      → Await
      → Bytes
      → ℕ
      → Text
      → Address
      → M World Error Signature
  unfolding request Hex.encode
  personal_sign h print write read parse await iv random message address = do
    sig_str ←
        request write read await iv random (codes "personal_sign")
          ((codes "0x" ++ Hex.encode h message) ∷ print address ∷ [])
    or_fail (parse sig_str) bad_signature

  -- `map_err(|e| WCError::ClientError(_))`.
  abbrev pub wrapped : {A : Type 0} → World × Result Error A → World × Result WcError A
  wrapped (w, ok a) = (w, ok a)
  wrapped (w, err e) = (w, err request_failed)
  wrapped (w, panic) = (w, panic)

  unfoldable pub sign_transaction :
      {Signature : Type 0}
      → Ethers Signature
      → Hex
      → (Text → M World WcError Address)
      → (Request (List TxObject) → Option Text)
      → (Value → Option Bytes)
      → Await
      → Bytes
      → ℕ
      → TypedTransaction
      → Address
      → M World WcError Signature
  unfolding Middleware.sign_transaction request
  sign_transaction e h resolve_name write read await iv random tx from =
      Middleware.sign_transaction e h resolve_name
        (λ method params w. wrapped (request write read await iv random method params w)) tx from

  unfoldable pub send_transaction :
      {Signature TxHash : Type 0}
      → Ethers Signature
      → Hex
      → (Text → M World WcError Address)
      → (Request (List TxObject) → Option Text)
      → (Value → Option TxHash)
      → Await
      → Bytes
      → ℕ
      → Option Address
      → TypedTransaction
      → M World WcError TxHash
  unfolding Middleware.send_transaction request
  send_transaction e h resolve_name write read await iv random default_sender tx =
      Middleware.send_transaction e h resolve_name
        (λ method params w. wrapped (request write read await iv random method params w))
        default_sender tx

-- `ClientError`, with the serde error by its text.
pub data ClientError : Type 0 where
  eyre : Error → ClientError
  json_rpc_error : JsonRpcError → ClientError
  serde_json : Text → Text → ClientError

unfoldable pub as_error_response : ClientError → Option JsonRpcError
as_error_response (eyre e) = none
as_error_response (json_rpc_error e) = some e
as_error_response (serde_json e text) = none

unfoldable pub as_serde_error : ClientError → Option Text
as_serde_error (eyre e) = none
as_serde_error (json_rpc_error e) = none
as_serde_error (serde_json e text) = some e
