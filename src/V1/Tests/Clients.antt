-- ===== src/V1/Tests/Clients.antt =====
-- Runs of the client of version 1 and of the task of its callbacks.
use play_cpp_sdk.Prelude.{ℕ, ◌≡◌, refl, Bool, true, false, Option, none, some, List, [], ◌∷◌, ◌++◌}
use play_cpp_sdk.Prelude.Text.{Bytes, codes, text_eq}
use play_cpp_sdk.Prelude.Assoc.{lookup}
use play_cpp_sdk.Rust.Effect.{panic}
use play_cpp_sdk.V1.Protocol.{Address}
use play_cpp_sdk.V1.Crypto.{open_sealed, hmac_sha256, seal}
use play_cpp_sdk.V1.Session.{
  ClientChannelMessage, connecting, connected, updated, update_params, apply,
}
use play_cpp_sdk.V1.Session
use play_cpp_sdk.V1.Context.{
  World, with_session, with_pending_flag, insert_pending, open_oneshot, enqueue,
}
use play_cpp_sdk.V1.Socket.{handle, update_request, update_session, check_socket_msg}
use play_cpp_sdk.V1.Handshake.{create_session}
use play_cpp_sdk.V1.Tasks.{read_frame, read_frames}
use play_cpp_sdk.V1.Tasks.Updates.{updated_by, read_frames-session}
use play_cpp_sdk.V1.Connector
use play_cpp_sdk.V1.Client.{ensure_session, default_message}
use play_cpp_sdk.V1.Client.Reports.{report, ensure_session_reports}
use play_cpp_sdk.V1.Client.Dispatch.{
  run_callback, messages, all_pass, up_to_failure, run_callback-messages,
  read_frames_after_callback,
}
use play_cpp_sdk.V1.Tests.{
  ciphers, sixteen, key, serde, idle, waits, info, session_update, update_message,
}

abbrev made : World
made = (ensure_session serde ciphers (some 4) waits sixteen 3 idle).0

abbrev made_result : List Address × ℕ
made_result = ((7 ∷ []) ∷ [], 25)

ensure_session_reports_example :
    (w1 : World) × (tx : ℕ) × (w1.callbacks.sent
      ≡ idle.callbacks.sent ++ (4, report connecting idle.session.info) ∷ [])
    × (made.callbacks.sent
        ≡ (waits tx w1).0.callbacks.sent ++ (4, report connected made.session.info) ∷ [])
    × (made_result.0 ≡ made.session.info.accounts)
unfolding ensure_session Connector.ensure_session Connector.set_callback create_session
    insert_pending lookup open_oneshot seal with_pending_flag enqueue apply with_session
    Session.event_connecting Session.set_callback
ensure_session_reports_example =
    ensure_session_reports serde ciphers waits sixteen 3 4 idle made made_result refl (λ c v. refl)
      refl

-- A callback that fails on the report of an update.
abbrev passes : ClientChannelMessage → Bool
passes m = elim m.state [ updated ↦ false | _ ↦ true ]

abbrev events : List (Option ClientChannelMessage)
events =
    some default_message ∷ none ∷ some (report updated info) ∷ some (report connected info) ∷ []

run_callback-messages_example :
    run_callback passes events
    ≡ (all_pass passes (messages events), up_to_failure passes (messages events))
run_callback-messages_example = run_callback-messages passes events

abbrev deaf : World
deaf = record idle { callbacks = record { is_open = λ c. false; sent = [] } }

abbrev more : List (Option Bytes)
more = some [] ∷ []

read_frames_after_callback_example :
    read_frames serde ciphers key (some sixteen ∷ more) deaf
    ≡ (with_session (update_params deaf.session session_update) deaf, panic)
unfolding check_socket_msg open_sealed hmac_sha256 text_eq
read_frames_after_callback_example =
    read_frames_after_callback serde ciphers key sixteen more (codes "own") (5 ∷ []) update_message
      session_update 0 deaf refl refl refl refl refl refl

-- A frame of the wallet and the end of the stream.
abbrev stream : List (Option Bytes)
stream = some sixteen ∷ none ∷ some [] ∷ []

abbrev updated_client : World
updated_client = (read_frames serde ciphers key stream idle).0

read_frames-session_example :
    updated_client.session ≡ updated_by serde ciphers key stream idle.session
unfolding read_frames read_frame handle update_request update_session check_socket_msg open_sealed
    hmac_sha256 text_eq Session.update
read_frames-session_example = read_frames-session serde ciphers key stream idle updated_client refl
