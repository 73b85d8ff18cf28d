-- ===== src/V2/Dispatch.antt =====
-- `impl ConnectionHandler for MessageHandler` of wallet-connect/src/v2/core.rs: what a message from the
-- relay does. The task that it spawns is a function; its nonce is an argument.
pub mod Topics
pub mod Authority
pub mod History
pub mod Takeover
use play_cpp_sdk.Prelude.{Bool, true, false, Option, none, some, if◌then◌else◌}
use play_cpp_sdk.Prelude.Text.{Text, Bytes, text_eq, codes}
use play_cpp_sdk.Rust.Effect.{M, Result, ok, err, panic}
use play_cpp_sdk.Hex.{Hex}
use play_cpp_sdk.V1.Protocol.{Topic}
use play_cpp_sdk.V1.Crypto.{Key}
use play_cpp_sdk.V2.Crypto.{Ciphers, decode_decrypt}
use play_cpp_sdk.V2.Context.{Serde, Error, World}
use play_cpp_sdk.V2.Handlers.{
  handle_session_proposal_response, handle_session_settle_request, handle_session_event_request,
  handle_session_delete_request, handle_session_update_request, handle_session_extend_request,
  handle_session_ping_request, handle_normal_rpc_response,
}

-- The handler's own fields, which serve debugging only; an error of the relay is its text.
pub record MessageHandler : Type 0 where
  pub is_connected : Bool
  pub last_connection_error : Option Text
  pub has_callback : Bool

unfoldable pub new_handler : Bool → MessageHandler
new_handler has_callback = record {
  is_connected = false;
  last_connection_error = none;
  has_callback = has_callback;
}

unfoldable pub connected : MessageHandler → MessageHandler
connected m = record m { is_connected = true }

unfoldable pub disconnected : MessageHandler → MessageHandler
disconnected m = record m { is_connected = false }

-- `inbound_error` and `outbound_error`.
unfoldable pub connection_error : Text → MessageHandler → MessageHandler
connection_error error m = record m { last_connection_error = some error }

-- `let _ = …`: an error is dropped, a panic is not.
abbrev pub ignored : {A : Type 0} → World × Result Error A → World × Result Error (Unit {0})
ignored (w, ok a) = (w, ok tt)
ignored (w, err e) = (w, ok tt)
ignored (w, panic) = (w, panic)

-- What a decrypted message is given to; nothing is done with what does not decrypt.
abbrev pub with_plain :
    Result (Unit {0}) Bytes → (Bytes → M World Error (Unit {0})) → M World Error (Unit {0})
with_plain (ok plain) f w = f plain w
with_plain (err e) f w = (w, ok tt)
with_plain panic f w = (w, panic)

module _ (serde : Serde) (ciphers : Ciphers) (hex : Hex) (nonce : Bytes) (has_callback : Bool) where
  -- The `match` on the method's name.
  unfoldable pub handle_method : Text → Bytes → M World Error (Unit {0})
  handle_method method plain w =
      if text_eq method (codes "wc_sessionSettle")
      then ignored (handle_session_settle_request serde ciphers hex nonce plain w)
      else if text_eq method (codes "wc_sessionUpdate")
      then ignored (handle_session_update_request serde ciphers hex nonce plain has_callback w)
      else if text_eq method (codes "wc_sessionExtend")
      then ignored (handle_session_extend_request serde ciphers hex nonce plain has_callback w)
      else if text_eq method (codes "wc_sessionPing")
      then ignored (handle_session_ping_request serde ciphers hex nonce plain has_callback w)
      else if text_eq method (codes "wc_sessionDelete")
      then ignored (handle_session_delete_request serde ciphers hex nonce plain has_callback w)
      else if text_eq method (codes "wc_sessionEvent")
      then ignored (handle_session_event_request serde ciphers hex nonce plain has_callback w)
      else (w, ok tt)

  abbrev pub handle_named : Option Text → Bytes → M World Error (Unit {0})
  handle_named none plain w = (w, ok tt)
  handle_named (some method) plain w = handle_method method plain w

  -- A message of the paired session: a request if it has a method, and else a response.
  unfoldable pub handle_paired : Bytes → M World Error (Unit {0})
  unfolding handle_method
  handle_paired plain w = elim (serde.read_json plain) [
    | none ↦ (w, panic)
    | some plainjson ↦ elim (serde.get_method plainjson) [
      | some method_value ↦ handle_named (serde.as_str method_value) plain w
      | none ↦ ignored (handle_normal_rpc_response serde ciphers hex plain w)
    ]
  ]

  unfoldable pub handle_proposal : Bytes → M World Error (Unit {0})
  handle_proposal plain w = ignored (handle_session_proposal_response serde ciphers hex plain w)

  unfoldable pub on_pairing : Topic → Text → Option (Topic × Key) → M World Error (Unit {0})
  unfolding handle_paired
  on_pairing topic message none w = (w, ok tt)
  on_pairing topic message (some (t, key)) w =
      if text_eq topic t
      then with_plain (decode_decrypt ciphers key message) handle_paired w
      else (w, ok tt)

  unfoldable pub message_received : Topic → Text → M World Error (Unit {0})
  unfolding on_pairing handle_proposal
  message_received topic message w =
      if text_eq topic w.session.session_proposal_topic
      then with_plain (decode_decrypt ciphers w.session.session_proposal_symkey message)
          handle_proposal w
      else on_pairing topic message w.session.pairing_topic_symkey w
