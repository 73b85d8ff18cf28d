-- ===== src/V1/Interleaving.antt =====
-- The tasks of the WalletConnect 1.0 client, interleaved: each step is one access to the state that
-- they share, by a request, the handshake, the reader or the writer (wallet-connect/src/client/socket.rs).
pub mod Requests
pub mod Guarantees
pub mod Owned
pub mod Accesses
pub mod Answers
pub mod Slots
use play_cpp_sdk.Prelude.{ℕ, ◌≡◌, refl, Bool, some}
use play_cpp_sdk.Prelude.Text.{Bytes}
use play_cpp_sdk.V1.Protocol.{SocketMessage, SessionParams}
use play_cpp_sdk.V1.Crypto.{Ciphers, Key}
use play_cpp_sdk.V1.Context.{Serde, World, dropped, open_oneshot, settle, remove_pending}
use play_cpp_sdk.V1.Context.Pending.{IsLinked, Same, register, register-IsLinked, register-Keeps}
use play_cpp_sdk.V1.Socket.{send_socket_msg}
use play_cpp_sdk.V1.Handshake.{apply_session}
use play_cpp_sdk.V1.Tasks.{read_frame, write_next}
use play_cpp_sdk.V1.Interleaving.Guarantees.{
  Tracks, Tracks-refl, Same-Tracks, Tracks-trans, apply_session-Same, read_frame-Tracks,
  send_socket_msg-Tracks, write_next-Tracks, refuse-Tracks, expire-Tracks,
}

pub data Step (serde : Serde) (ciphers : Ciphers) (w w' : World) : Type 0 where
  -- A request opens a channel and enters the map, or finds the map full and drops the channel.
  registers : (id : ℕ) → w' ≡ register id w → Step serde ciphers w w'
  refuses : w' ≡ settle w.next_oneshot dropped (open_oneshot w) → Step serde ciphers w w'
  sends :
      (id : ℕ) (msg : SocketMessage)
      → w' ≡ (send_socket_msg serde ciphers id msg w).0
      → Step serde ciphers w w'
  receives :
      (key : Key) (frame : Bytes)
      → w' ≡ (read_frame serde ciphers key frame w).0
      → Step serde ciphers w w'
  writes :
      (delivered : Bool) (x : Bytes)
      → write_next serde ciphers delivered w ≡ some (x, w')
      → Step serde ciphers w w'
  expires : (id : ℕ) → w' ≡ remove_pending id w → Step serde ciphers w w'
  applies :
      (params : SessionParams)
      → w' ≡ (apply_session serde ciphers params w).0
      → Step serde ciphers w w'
  -- Any other change of the session, the flag or the callback channels.
  others : Same w w' → Step serde ciphers w w'

pub data Reach (serde : Serde) (ciphers : Ciphers) (w : World) : World → Type 0 where
  here : Reach serde ciphers w w
  next :
      {v w' : World} → Reach serde ciphers w v → Step serde ciphers v w' → Reach serde ciphers w w'

module _ (serde : Serde) (ciphers : Ciphers) where
  -- Each step keeps the map and the channels linked, and leaves used channels alone.
  pub Step-Tracks : {w w' : World} → IsLinked w → Step serde ciphers w w' → Tracks w w'
  Step-Tracks {w} {w'} l (registers id e) = rw e (register-IsLinked id w l, register-Keeps id w l)
  Step-Tracks {w} {w'} l (refuses e) = rw e (refuse-Tracks serde ciphers w l)
  Step-Tracks {w} {w'} l (sends id msg e) = rw e (send_socket_msg-Tracks serde ciphers id msg w l)
  Step-Tracks {w} {w'} l (receives key frame e) =
      rw e (read_frame-Tracks serde ciphers key frame w l)
  Step-Tracks {w} {w'} l (writes delivered x e) =
      write_next-Tracks serde ciphers w.queue delivered x w w' refl l e
  Step-Tracks {w} {w'} l (expires id e) = rw e (expire-Tracks serde ciphers id w l)
  Step-Tracks {w} {w'} l (applies params e) =
      rw e (Same-Tracks w _ l (apply_session-Same serde ciphers params w))
  Step-Tracks {w} {w'} l (others s) = Same-Tracks w w' l s

  -- However the tasks interleave, from a state in which no two pending requests share a channel
  -- and the channel of each is unused: every later state is such a state again, and a request that
  -- got its answer (or lost its sender) keeps it, so there is no second answer.
  pub Reach-Tracks : {w w' : World} → IsLinked w → Reach serde ciphers w w' → Tracks w w'
  Reach-Tracks {w} l here = Tracks-refl w l
  Reach-Tracks {w} {w'} l (next {v} r s) =
      let t = Reach-Tracks l r in Tracks-trans w v w' t (Step-Tracks t.0 s)
