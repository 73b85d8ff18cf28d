-- ===== src/V2/Client.antt =====
-- `Client` of wallet-connect/src/v2/client.rs: the session that a program asks for, and
-- signatures.
use play_cpp_sdk.Prelude.{ℕ, Bool, Option, none, some, List, [], ◌∷◌, ◌++◌}
use play_cpp_sdk.Prelude.Text.{Text, Bytes, codes}
use play_cpp_sdk.Rust.Effect.{M, Result, ok, err, panic, ◌>>=◌, pure, get, or_fail}
use play_cpp_sdk.Hex.{Hex}
use play_cpp_sdk.Hex
use play_cpp_sdk.V1.Protocol.{Value, Url, Address, Request}
use play_cpp_sdk.V2.Crypto.{Ciphers}
use play_cpp_sdk.V2.Protocol.{
  Metadata, RequiredNamespaces, Namespaces, WcSessionPropose, WcSessionRequest,
}
use play_cpp_sdk.V2.Session.{SessionInfo, Drawn}
use play_cpp_sdk.V2.Session
use play_cpp_sdk.V2.Context.{Serde, Error, World, no_namespaces, bad_signature}
use play_cpp_sdk.V2.Connector.{Await, Progress, established, awaits_settle, new_client, request}
use play_cpp_sdk.V2.Connector
use play_cpp_sdk.Middleware.{TypedTransaction, Ethers, TxObject, WcError, request_failed}
use play_cpp_sdk.Middleware

pub record ClientOptions : Type 0 where
  pub relay_server : Url
  pub project_id : Text
  pub required_namespaces : RequiredNamespaces
  pub client_meta : Metadata

-- The arguments: whether the relay is reached at a URL, what is drawn, and whether the application's
-- callback channel is open.
unfoldable pub new : (Text → Bool) → Hex → Drawn → ClientOptions → Bool → Result Error World
unfolding Session.new new_client
new connects h d opts callbacks_open =
    new_client connects
      (Session.new h d opts.relay_server opts.project_id opts.required_namespaces opts.client_meta)
      callbacks_open

unfoldable pub restore : (Text → Bool) → SessionInfo → Bool → Result Error World
unfolding new_client
restore connects session_info callbacks_open = new_client connects session_info callbacks_open

module _ (serde : Serde) (ciphers : Ciphers) where
  -- `none`: the session is proposed, and the call waits for its settlement.
  abbrev pub namespaces_of : Progress → M World Error (Option Namespaces)
  namespaces_of established = do
    w ← get
    namespaces ← or_fail w.session.namespaces no_namespaces
    pure (some namespaces)
  namespaces_of (awaits_settle n) = pure none

  unfoldable pub ensure_session :
      (Request WcSessionPropose → Option Text)
      → Await
      → Bytes
      → ℕ
      → M World Error (Option Namespaces)
  unfolding Connector.ensure_session
  ensure_session write await nonce random = do
    progress ← Connector.ensure_session serde ciphers write await nonce random
    namespaces_of progress

  -- The argument is the value of a `WcSessionPing`.
  unfoldable pub send_ping :
      (Request Value → Option Text) → Await → Bytes → ℕ → Value → M World Error Text
  unfolding Connector.send_ping
  send_ping write await nonce random params =
      Connector.send_ping serde ciphers write await nonce random params

  -- The arguments are the text of an address, the serialiser of the request, the reader of the
  -- response, and the parser of a signature.
  unfoldable pub personal_sign :
      {Signature : Type 0}
      → Hex
      → (Address → Text)
      → (Request (WcSessionRequest (List Text)) → Option Text)
      → (Value → Option Text)
      → (Text → Option Signature)
      → Await
      → Bytes
      → ℕ
      → Text
      → Address
      → M World Error Signature
  unfolding request Hex.encode
  personal_sign h print write read parse await nonce random message address = do
    sig_str ←
        request serde ciphers write read await nonce random (codes "personal_sign")
          ((codes "0x" ++ Hex.encode h message) ∷ print address ∷ [])
    or_fail (parse sig_str) bad_signature

  -- `map_err(|e| WCError::ClientError(_))`.
  abbrev pub wrapped : {A : Type 0} → World × Result Error A → World × Result WcError A
  wrapped (w, ok a) = (w, ok a)
  wrapped (w, err e) = (w, err request_failed)
  wrapped (w, panic) = (w, panic)

  unfoldable pub sign_transaction :
      {Signature : Type 0}
      → Ethers Signature
      → Hex
      → (Text → M World WcError Address)
      → (Request (WcSessionRequest (List TxObject)) → Option Text)
      → (Value → Option Bytes)
      → Await
      → Bytes
      → ℕ
      → TypedTransaction
      → Address
      → M World WcError Signature
  unfolding Middleware.sign_transaction request
  sign_transaction e h resolve_name write read await nonce random tx from =
      Middleware.sign_transaction e h resolve_name
        (λ method params w.
          wrapped (request serde ciphers write read await nonce random method params w))
        tx from

unfoldable pub get_session_info : World → SessionInfo
unfolding Connector.get_session_info
get_session_info w = Connector.get_session_info w

unfoldable pub get_connection_string : Hex → World → Text
unfolding Connector.get_uri
get_connection_string h w = Connector.get_uri h w
