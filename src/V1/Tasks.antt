-- ===== src/V1/Tasks.antt =====
-- The reader and the writer task that `Socket::connect` of wallet-connect/src/client/socket.rs starts.
-- The frames of the websocket and the fate of each write are arguments.
pub mod Laws
pub mod Updates
use play_cpp_sdk.Prelude.{ℕ, Bool, false, Option, none, some, List, [], ◌∷◌, if◌then◌else◌}
use play_cpp_sdk.Prelude.Text.{Bytes}
use play_cpp_sdk.Rust.Effect.{M, ◌>>=◌, ◌>>◌, pure, modify}
use play_cpp_sdk.V1.Crypto.{Ciphers, Key}
use play_cpp_sdk.V1.Context.{Serde, Error, World, answer, enqueue}
use play_cpp_sdk.V1.Socket.{handle, check_socket_msg, bridge_error}

module _ (serde : Serde) (ciphers : Ciphers) where
  -- `let _ = sender.send((None, resp))`.
  abbrev pub send_back : Option Bytes → World → World
  send_back none w = w
  send_back (some resp) w = if w.queue_open then enqueue none resp w else w

  -- A frame that is no message for us is passed over.
  unfoldable pub read_frame : Key → Bytes → M World Error (Unit {0})
  read_frame key frame = elim (check_socket_msg serde ciphers frame key) [
    | none ↦ pure tt
    | some (topic, decrypted) ↦ (do
      resp ← handle serde ciphers topic decrypted
      modify (send_back resp))
  ]

  -- The reader: it ends at the first error of the stream, `none`.
  unfoldable pub read_frames : Key → List (Option Bytes) → M World Error (Unit {0})
  unfolding read_frame
  read_frames key [] = pure tt
  read_frames key (none ∷ frames) = pure tt
  read_frames key (some frame ∷ frames) = do read_frame key frame; read_frames key frames

  -- One round of the writer; the flag says whether the websocket took the message.
  unfoldable pub write_frame : Bool → Option ℕ → World → World
  write_frame false (some id) w = answer id (serde.text_to_value bridge_error) w
  write_frame _ _ w = w

  -- The writer takes the oldest message of the queue.
  unfoldable pub write_next : Bool → World → Option (Bytes × World)
  unfolding write_frame
  write_next delivered w = elim w.queue [
    | [] ↦ none
    | (mid, x) ∷ rest ↦ some (x, write_frame delivered mid (record w { queue = rest }))
  ]
