-- ===== src/V1/Client/Dispatch.antt =====
-- `Client::run_callback` of wallet-connect/src/client.rs: the task that hands the messages of the callback
-- channel to the application, and what happens to the client when it has ended.
use play_cpp_sdk.Prelude.{
  ℕ, ◌≡◌, refl, Bool, true, false, ◌&&◌, Option, none, some, List, [], ◌∷◌, arith, if◌then◌else◌,
  Bool-cases, inl, inr,
}
use play_cpp_sdk.Prelude.Text.{Bytes, text_eq, codes}
use play_cpp_sdk.Rust.Effect.{panic}
use play_cpp_sdk.V1.Protocol.{Topic, SessionUpdate, RequestSessionUpdate, session_update_request}
use play_cpp_sdk.V1.Crypto.{Ciphers, Key}
use play_cpp_sdk.V1.Session.{ClientChannelMessage, update_params}
use play_cpp_sdk.V1.Session
use play_cpp_sdk.V1.Context.{Serde, World, with_session}
use play_cpp_sdk.V1.Socket.{handle, update_request, update_session, check_socket_msg}
use play_cpp_sdk.V1.Tasks.{read_frame, read_frames}

-- The loop over what `recv` returns, `none` once all senders are gone: whether the task is still in its
-- loop, and what the callback was given. The callback's `Ok` is `true`, and its error ends the task.
unfoldable pub run_callback :
    (ClientChannelMessage → Bool)
    → List (Option ClientChannelMessage)
    → Bool × List ClientChannelMessage
run_callback mycallback [] = (true, [])
run_callback mycallback (none ∷ events) = run_callback mycallback events
run_callback mycallback (some message ∷ events) =
    let (running, given) = run_callback mycallback events in
    if mycallback message then (running, message ∷ given) else (false, message ∷ [])

abbrev pub messages : List (Option ClientChannelMessage) → List ClientChannelMessage
messages [] = []
messages (none ∷ events) = messages events
messages (some m ∷ events) = m ∷ messages events

abbrev pub all_pass : (ClientChannelMessage → Bool) → List ClientChannelMessage → Bool
all_pass f [] = true
all_pass f (m ∷ ms) = f m && all_pass f ms

-- The messages up to the first one that fails, with it.
abbrev pub up_to_failure :
    (ClientChannelMessage → Bool) → List ClientChannelMessage → List ClientChannelMessage
up_to_failure f [] = []
up_to_failure f (m ∷ ms) = m ∷ (if f m then up_to_failure f ms else [])

-- The callback is given the messages in their order, up to the first one that it fails on; the task ends
-- with that failure only. It does not end when all senders are gone: as long as `recv` returns
-- nothing more, it stays in its loop.
pub run_callback-messages :
    (mycallback : ClientChannelMessage → Bool) (events : List (Option ClientChannelMessage))
    → run_callback mycallback events
      ≡ (all_pass mycallback (messages events), up_to_failure mycallback (messages events))
unfolding run_callback
run_callback-messages mycallback [] = refl
run_callback-messages mycallback (none ∷ events) = run_callback-messages mycallback events
run_callback-messages mycallback (some m ∷ events) =
    ground (arith, run_callback-messages mycallback events)

module _ (serde : Serde) (ciphers : Ciphers) where
  -- Once the callback's task has ended, so that its receiver is gone, the next session update of the wallet
  -- ends the reader of the websocket with a panic: the update is made, and no frame behind it is
  -- ever read.
  pub read_frames_after_callback :
      (key : Key) (frame : Bytes) (rest : List (Option Bytes)) (topic : Topic) (decrypted : Bytes)
      (req : RequestSessionUpdate) (up : SessionUpdate) (ch : ℕ) (w : World)
      → check_socket_msg serde ciphers frame key ≡ some (topic, decrypted)
      → serde.read_bridge_msg decrypted ≡ some (session_update_request req)
      → req.params ≡ up ∷ []
      → req.method ≡ codes "wc_sessionUpdate"
      → w.session.callback_channel ≡ some ch
      → w.callbacks.is_open ch ≡ false
      → read_frames serde ciphers key (some frame ∷ rest) w
        ≡ (with_session (update_params w.session up) w, panic)
  unfolding read_frames read_frame handle update_request update_session text_eq Session.update
  read_frames_after_callback key frame rest topic decrypted req up ch w checks reads one named has
        shut =
      elim (Bool-cases up.approved) [ inl yes_up ↦ ground arith | inr no_up ↦ ground arith ]
