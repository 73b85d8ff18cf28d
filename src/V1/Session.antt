-- ===== src/V1/Session.antt =====
-- wallet-connect/src/client/session.rs, and the channel messages of wallet-connect/src/client.rs. A
-- callback channel is a number; what is sent on it goes to a log, and a send on a channel whose
-- receiver is gone panics, by the code's `expect`.
pub mod Events
pub mod ConnectionUri
use play_cpp_sdk.Prelude.{
  ℕ, Bool, Option, none, some, List, [], ◌∷◌, ◌++◌, if◌then◌else◌, unwrap_or,
}
use play_cpp_sdk.Prelude.Text.{Text, codes}
use play_cpp_sdk.Hex.{Hex}
use play_cpp_sdk.V1.Protocol.{
  Url, Topic, Address, Metadata, PeerMetadata, SessionRequest, SessionParams, SessionUpdate,
}
use play_cpp_sdk.V1.Crypto.{Key, display}
use play_cpp_sdk.V1.Uri.{Urls, Uri}
use play_cpp_sdk.V1.Uri

pub record SessionInfo : Type 0 where
  pub connected : Bool
  pub accounts : List Address
  pub chain_id : Option ℕ
  pub bridge : Url
  pub key : Key
  pub client_id : Topic
  pub client_meta : Metadata
  pub peer_id : Option Topic
  pub peer_meta : Option PeerMetadata
  pub handshake_topic : Topic

-- The text that `SessionInfo::uri` formats.
unfoldable pub uri_text : Urls → Hex → SessionInfo → Text
uri_text u h info =
    codes "wc:"
    ++ ((info.handshake_topic ++ codes "@1")
        ++ b'?'
          ∷ u.form_urlencoded
              ((codes "bridge", info.bridge) ∷ (codes "key", display h info.key) ∷ []))

-- `SessionInfo::uri`: `none` where `expect` panics.
unfoldable pub uri : Urls → Hex → SessionInfo → Option Uri
unfolding uri_text
uri u h info = Uri.parse u h (uri_text u h info)

pub data ClientChannelMessageType : Type 0 where
  connecting connected updated disconnected : ClientChannelMessageType

pub record ClientChannelMessage : Type 0 where
  pub state : ClientChannelMessageType
  pub session : Option SessionInfo

pub record Session : Type 0 where
  pub info : SessionInfo
  pub callback_channel : Option ℕ

-- The callback channels of the process: which receivers are alive, and what was sent, latest last.
pub record Callbacks : Type 0 where
  pub is_open : ℕ → Bool
  pub sent : List (ℕ × ClientChannelMessage)

unfoldable pub set_callback : Session → ℕ → Session
set_callback s channel = record s { callback_channel = some channel }

unfoldable pub request : Session → SessionRequest
request s = record {
  chain_id = s.info.chain_id;
  peer_id = s.info.client_id;
  peer_meta = s.info.client_meta;
}

-- What a method does to the callback channels; `none` is a panic.
unfoldable pub notify :
    ClientChannelMessageType → Option ℕ → SessionInfo → Callbacks → Option Callbacks
notify state none info cbs = some cbs
notify state (some channel) info cbs =
    if cbs.is_open channel
    then some (record cbs {
      sent = cbs.sent ++ (channel, record { state = state; session = some info }) ∷ [];
    })
    else none

unfoldable pub event_connecting : Session → Callbacks → Option Callbacks
unfolding notify
event_connecting s = notify connecting s.callback_channel s.info

unfoldable pub event_updated : Session → Callbacks → Option Callbacks
unfolding notify
event_updated s = notify updated s.callback_channel s.info

unfoldable pub event_disconnect : Session → Callbacks → Option Callbacks
unfolding notify
event_disconnect s = notify disconnected s.callback_channel s.info

-- The session that `apply` leaves, and its message.
unfoldable pub apply_params : Session → SessionParams → Session
apply_params s params = record s {
  info = record s.info {
    connected = params.approved;
    accounts = params.accounts;
    chain_id = some params.chain_id;
    peer_id = some params.peer_id;
    peer_meta = some params.peer_meta;
  };
}

unfoldable pub apply : Session → SessionParams → Callbacks → Session × Option Callbacks
unfolding apply_params notify
apply s params cbs =
    let s' = apply_params s params in (s', notify connected s'.callback_channel s'.info cbs)

unfoldable pub update_params : Session → SessionUpdate → Session
update_params s update = record s {
  info = record s.info {
    connected = update.approved;
    accounts = unwrap_or update.accounts [];
    chain_id = update.chain_id;
  };
}

unfoldable pub update : Session → SessionUpdate → Callbacks → Session × Option Callbacks
unfolding update_params event_updated event_disconnect
update s up cbs =
    let s' = update_params s up in
    (s', if s'.info.connected then event_updated s' cbs else event_disconnect s' cbs)
