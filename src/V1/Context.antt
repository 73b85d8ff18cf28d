-- ===== src/V1/Context.antt =====
-- The client state of wallet-connect/src/client/core.rs (`Context`, `SharedContext`), with what it
-- shares with the tasks of socket.rs: the one-shot channels of the requests, the queue of the writer
-- task and the callback channels.
pub mod Pending
pub mod Sizes
use play_cpp_sdk.Prelude.{
  ℕ, ◌+◌, Bool, false, Option, none, some, List, [], ◌∷◌, ◌++◌, if◌then◌else◌, ◌==◌,
}
use play_cpp_sdk.Prelude.Text.{Text, Bytes}
use play_cpp_sdk.Prelude.Assoc.{lookup, insert, erase}
use play_cpp_sdk.V1.Protocol.{
  Value, JsonRpcError, BridgeServerMsg, SocketMessage, SessionRequest, SessionParams, Request, I64,
}
use play_cpp_sdk.V1.Session.{Session, Callbacks}

-- `serde_json` on the types that the client sends and receives.
pub record Serde : Type 0 where
  pub write_socket_message : SocketMessage → Option Bytes
  pub read_socket_message : Bytes → Option SocketMessage
  pub read_bridge_msg : Bytes → Option BridgeServerMsg
  pub error_to_value : JsonRpcError → Option Value
  pub text_to_value : Text → Value
  -- `value["code"].as_i64()`.
  pub code_of : Value → Option I64
  pub write_session_request : Request (List SessionRequest) → Option Text
  pub read_session_params : Value → Option SessionParams

-- The errors of the client, without their texts.
pub data Error : Type 0 where
  limit_reached : ℕ → Error
  already_connected already_pending serialization queue_closed channel_closed : Error
  -- The wallet's answer has the code -32000.
  rejected : Value → Error
  unparsable : Value → Error
  timed_out : ℕ → Error
  not_exists : Error
  bad_scheme : Text → Error
  connect_failed bad_signature : Error

-- A one-shot channel, by what its sender did.
pub data Oneshot : Type 0 where
  waiting : Oneshot
  sent : Value → Oneshot
  dropped : Oneshot

-- A request's id goes with the number of its one-shot channel.
pub record Context : Type 0 where
  pub session : Session
  pub session_pending : Bool
  pub pending_requests_timeout : ℕ
  pub pending_requests_limit : ℕ
  pub pending_requests : List (ℕ × ℕ)

pub record World : Type 0 where
  pub context : Context
  pub open context use *
  pub oneshots : ℕ → Oneshot
  pub next_oneshot : ℕ
  -- What waits for the writer task, and whether that task still receives.
  pub queue : List (Option ℕ × Bytes)
  pub queue_open : Bool
  pub callbacks : Callbacks

-- `SharedContext::new`.
unfoldable pub new_context : Session → Context
new_context session = record {
  session = session;
  session_pending = false;
  pending_requests_timeout = 60000;
  pending_requests_limit = 2;
  pending_requests = [];
}

unfoldable pub set_oneshot : ℕ → Oneshot → (ℕ → Oneshot) → ℕ → Oneshot
set_oneshot ch state chans c = if c == ch then state else chans c

-- `oneshot::channel()`.
unfoldable pub open_oneshot : World → World
unfolding set_oneshot
open_oneshot w = record w {
  oneshots = set_oneshot w.next_oneshot waiting w.oneshots;
  next_oneshot = w.next_oneshot + 1;
}

-- What becomes of a channel whose sender is used or dropped.
unfoldable pub settle : ℕ → Oneshot → World → World
unfolding set_oneshot
settle ch state w = record w { oneshots = set_oneshot ch state w.oneshots }

settle_old : Option ℕ → World → World
settle_old none w = w
settle_old (some ch) w = settle ch dropped w

-- `pending_requests.insert(id, tx)`: a sender that the id had before is dropped.
unfoldable pub insert_pending : ℕ → ℕ → World → World
unfolding settle_old settle
insert_pending id ch w =
    let w' = settle_old (lookup id w.pending_requests) w in
    record w' {
      context = record w'.context { pending_requests = insert id ch w'.context.pending_requests };
    }

-- `pending_requests.remove(&id)`, the state that it leaves.
unfoldable pub remove_pending : ℕ → World → World
remove_pending id w = record w {
  context = record w.context { pending_requests = erase id w.pending_requests };
}

-- Removes a request, and sends a value or nothing to its waiter. `none`: the id is not pending.
unfoldable pub take_pending : ℕ → Oneshot → World → Option World
unfolding remove_pending settle
take_pending id state w = elim (lookup id w.pending_requests) [
  | none ↦ none
  | some ch ↦ some (settle ch state (remove_pending id w))
]

-- `if let Some((_id, sender)) = remove(&id) { let _ = sender.send(value); }`.
unfoldable pub answer : ℕ → Value → World → World
unfolding take_pending
answer id value w = elim (take_pending id (sent value) w) [ none ↦ w | some w' ↦ w' ]

unfoldable pub enqueue : Option ℕ → Bytes → World → World
enqueue mid bytes w = record w { queue = w.queue ++ (mid, bytes) ∷ [] }

unfoldable pub with_session : Session → World → World
with_session s w = record w { context = record w.context { session = s } }

unfoldable pub with_pending_flag : Bool → World → World
with_pending_flag flag w = record w { context = record w.context { session_pending = flag } }
