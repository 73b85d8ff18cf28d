-- ===== src/Bindings/Callbacks.antt =====
-- What extra-cpp-bindings/src/walletconnect.rs tells C++ of a session, by the conversion of its state and by the
-- callbacks of its events. The JSON texts of a session and of metadata, and the print of an address, are
-- parameters; an object that C++ makes is not null.
pub mod Reports
use play_cpp_sdk.Prelude.{ℕ, Bool, Option, none, some, List, [], ◌∷◌, ◌++◌, map, is_some}
use mathlib.Core.Option
use play_cpp_sdk.Prelude.Text.{Text, codes}
use play_cpp_sdk.Rust.Decimal.{to_text}
use play_cpp_sdk.Hex.{Hex}
use play_cpp_sdk.V1.Protocol.{Address, Metadata, PeerMetadata}
use play_cpp_sdk.V1.Session.{
  SessionInfo, ClientChannelMessage, ClientChannelMessageType, connecting, connected, updated,
  disconnected,
}
use play_cpp_sdk.V1.Client.Dispatch.{run_callback}

-- The setters of the C++ class, by what they set.
pub record WalletConnectSessionInfo : Type 0 where
  pub chainid : Text
  pub connected : Bool
  pub accounts : List Text
  pub bridge : Text
  pub key : Text
  pub clientid : Text
  pub clientmeta : Text
  pub peerid : Text
  pub peermeta : Text
  pub handshaketopic : Text

-- `format!("{account:#x}")` and the JSON texts.
pub record Texts : Type 0 where
  pub print_address : Address → Text
  pub read_session_info : Text → Option SessionInfo
  pub write_session_info : SessionInfo → Option Text
  pub write_metadata : Metadata → Option Text
  pub write_peer_metadata : PeerMetadata → Option Text

-- The calls of the C++ callbacks.
pub data CppCall : Type 0 where
  on_connected on_disconnected on_connecting on_updated : WalletConnectSessionInfo → CppCall

abbrev pub call_of : ClientChannelMessageType → WalletConnectSessionInfo → CppCall
call_of connected info = on_connected info
call_of disconnected info = on_disconnected info
call_of connecting info = on_connecting info
call_of updated info = on_updated info

abbrev pub chain_id_text : Option ℕ → Text
chain_id_text none = []
chain_id_text (some id) = to_text id

abbrev pub peer_id_text : Option Text → Text
peer_id_text none = []
peer_id_text (some id) = id

abbrev pub peer_meta_text : Texts → Option PeerMetadata → Option Text
peer_meta_text texts none = some []
peer_meta_text texts (some meta) = texts.write_peer_metadata meta

module _ (h : Hex) (texts : Texts) where
  unfoldable pub convert_session_info : SessionInfo → Option WalletConnectSessionInfo
  convert_session_info info = elim (texts.write_metadata info.client_meta) [
    | none ↦ none
    | some clientmeta ↦
        Option.map
          (λ peermeta. record {
            chainid = chain_id_text info.chain_id;
            connected = info.connected;
            accounts = map texts.print_address info.accounts;
            bridge = info.bridge;
            key = codes "0x" ++ h.encode_crate info.key.raw;
            clientid = info.client_id;
            clientmeta = clientmeta;
            peerid = peer_id_text info.peer_id;
            peermeta = peermeta;
            handshaketopic = info.handshake_topic;
          })
          (peer_meta_text texts info.peer_meta)
  ]

  abbrev pub converted : Option SessionInfo → Option WalletConnectSessionInfo
  unfolding convert_session_info
  converted none = none
  converted (some info) = convert_session_info info

  -- The closure of `setup_callback`: the call that it makes, or `none` where it is an error.
  unfoldable pub on_message : ClientChannelMessage → Option CppCall
  on_message message = Option.map (call_of message.state) (converted message.session)

  abbrev pub calls : List ClientChannelMessage → List CppCall
  unfolding on_message
  calls [] = []
  calls (m ∷ ms) = elim (on_message m) [ none ↦ calls ms | some c ↦ c ∷ calls ms ]

  -- Whether the task is still in its loop, and the calls that were made, for what `recv` returns.
  unfoldable pub setup_callback : List (Option ClientChannelMessage) → Bool × List CppCall
  unfolding on_message run_callback
  setup_callback events =
      let (running, given) = run_callback (λ m. is_some (on_message m)) events in
      (running, calls given)
