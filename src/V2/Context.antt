-- ===== src/V2/Context.antt =====
-- The client state of wallet-connect/src/v2/core.rs (`Context`, `ConnectorMessage`), with the one-shot
-- channels of the requests, the queue of the task loop and the application's callback channel.
pub mod Pending
use play_cpp_sdk.Prelude.{
  ℕ, ◌+◌, Bool, Option, none, some, List, [], ◌∷◌, ◌++◌, if◌then◌else◌, ◌==◌,
}
use play_cpp_sdk.Prelude.Text.{Text, Bytes}
use play_cpp_sdk.Prelude.Assoc.{lookup, insert, erase}
use play_cpp_sdk.Rust.Effect.{M, ok, err, panic, ◌>>=◌, pure, get, modify, or_fail}
use play_cpp_sdk.V1.Protocol.{Value, Topic, Request, Response, JsonRpcError}
use play_cpp_sdk.V2.Crypto.{Ciphers, encrypt_and_encode}
use play_cpp_sdk.V2.Protocol.{
  WcSessionProposeResponse, WcSessionSettle, WcSessionEvent, WcSessionDelete, WcSessionUpdate,
  WcSessionExtend, WcSessionPing,
}
use play_cpp_sdk.V2.Session.{SessionInfo}

-- `serde_json` on one type of requests: read when it arrives, and written for the callback.
pub record Codec (T : Type 0) : Type 0 where
  pub read : Bytes → Option T
  pub write : T → Option Text

-- `serde_json` on the types that the client sends and receives.
pub record Serde : Type 0 where
  pub read_json : Bytes → Option Value
  -- `value.get("method")`, `value.get("error")`, and `as_str`.
  pub get_method : Value → Option Value
  pub get_error : Value → Option Value
  pub as_str : Value → Option Text
  pub error_to_value : JsonRpcError → Option Value
  pub write_value : Value → Option Text
  pub write_ack : Response Bool → Option Text
  pub read_response : Bytes → Option (Response Value)
  pub read_propose_response : Bytes → Option (Response WcSessionProposeResponse)
  pub propose_response_to_value : Response WcSessionProposeResponse → Option Value
  pub settle : Codec (Request WcSessionSettle)
  pub event : Codec (Request WcSessionEvent)
  pub delete : Codec (Request WcSessionDelete)
  pub update : Codec (Request WcSessionUpdate)
  pub extend : Codec (Request WcSessionExtend)
  pub ping : Codec (Request WcSessionPing)

pub data Error : Type 0 where
  serialization unreadable request_not_found queue_closed channel_closed : Error
  no_pairing unparsable no_namespaces bad_signature connect_failed : Error
  ensure_session_fail : Value → Error

pub data Oneshot : Type 0 where
  waiting : Oneshot
  sent : Value → Oneshot
  dropped : Oneshot

pub data ConnectorMessage : Type 0 where
  publish : Topic → Text → ℕ → ConnectorMessage
  subscribe : Topic → ConnectorMessage

-- `Context::new` sets a timeout of 60000 milliseconds and a limit of two pending requests.
pub record Context : Type 0 where
  pub session : SessionInfo
  -- How often `notify_waiters` was called on `session_pending_notify`.
  pub notified : ℕ
  pub pending_requests_timeout : ℕ
  pub pending_requests_limit : ℕ
  pub pending_requests : List (ℕ × ℕ)
  pub subscriptions : List (Topic × Text)

pub record World : Type 0 where
  pub context : Context
  pub open context use *
  pub oneshots : ℕ → Oneshot
  pub next_oneshot : ℕ
  -- What was sent to the task loop, oldest message first, and whether the loop still receives. The channel
  -- holds ten messages: a send waits until the loop has taken one. That wait is no part of the state;
  -- a send stands for the moment at which the channel has room.
  pub queue : List ConnectorMessage
  pub queue_open : Bool
  -- What the application received, latest last, and whether it still receives.
  pub callbacks : List Text
  pub callbacks_open : Bool

unfoldable pub new_context : SessionInfo → Context
new_context session = record {
  session = session;
  notified = 0;
  pending_requests_timeout = 60000;
  pending_requests_limit = 2;
  pending_requests = [];
  subscriptions = [];
}

unfoldable pub set_oneshot : ℕ → Oneshot → (ℕ → Oneshot) → ℕ → Oneshot
set_oneshot ch state chans c = if c == ch then state else chans c

settle_old : Option ℕ → (ℕ → Oneshot) → ℕ → Oneshot
unfolding set_oneshot
settle_old none chans = chans
settle_old (some ch) chans = set_oneshot ch dropped chans

-- `oneshot::channel()` and `pending_requests.insert(id, sender)`.
unfoldable pub register : ℕ → World → World
unfolding settle_old set_oneshot
register id w = record w {
  context = record w.context { pending_requests = insert id w.next_oneshot w.pending_requests };
  oneshots =
      set_oneshot w.next_oneshot waiting (settle_old (lookup id w.pending_requests) w.oneshots);
  next_oneshot = w.next_oneshot + 1;
}

-- `pending_requests.remove(&id)` and what becomes of the sender; `none`: the id is not pending.
unfoldable pub take_pending : ℕ → Oneshot → World → Option World
unfolding set_oneshot
take_pending id state w = elim (lookup id w.pending_requests) [
  | none ↦ none
  | some ch ↦ some (record w {
    context = record w.context { pending_requests = erase id w.pending_requests };
    oneshots = set_oneshot ch state w.oneshots;
  })
]

unfoldable pub with_session : SessionInfo → World → World
with_session s w = record w { context = record w.context { session = s } }

-- `notify_waiters`.
unfoldable pub notify_waiters : World → World
notify_waiters w = record w { context = record w.context { notified = w.notified + 1 } }

-- `let _ = sender.send(message).await`, once there is room: without a receiver the message is lost.
unfoldable pub send_message : ConnectorMessage → World → World
send_message m w = if w.queue_open then record w { queue = w.queue ++ m ∷ [] } else w

-- `sender.send(message).await?`, once there is room.
unfoldable pub send_or_fail : ConnectorMessage → M World Error (Unit {0})
unfolding send_message
send_or_fail m w = if w.queue_open then (send_message m w, ok tt) else (w, err queue_closed)

module _ (serde : Serde) (ciphers : Ciphers) where
  -- Nothing is sent while there is no pairing.
  unfoldable pub send_response : Bytes → Response Bool → ℕ → M World Error (Unit {0})
  unfolding encrypt_and_encode send_message
  send_response nonce response tag = do
    response_str ← or_fail (serde.write_ack response) serialization
    w ← get
    elim w.session.pairing_topic_symkey [
      | none ↦ pure tt
      | some (t, key) ↦
          modify (send_message (publish t (encrypt_and_encode ciphers nonce key response_str) tag))
    ]

  -- `unwrap` panics if the application's receiver is gone. The flag says whether there is a callback.
  unfoldable pub send_callback : {T : Type 0} → Codec T → T → Bool → M World Error (Unit {0})
  send_callback codec message has_callback = do
    request_str ← or_fail (codec.write message) serialization
    (λ w.
        if has_callback
        then if w.callbacks_open
          then (record w { callbacks = w.callbacks ++ request_str ∷ [] }, ok tt)
          else (w, panic)
        else (w, ok tt))

  unfoldable pub restore_subscription : M World Error (Unit {0})
  unfolding send_message
  restore_subscription = do
    w ← get
    elim w.session.pairing_topic_symkey [
      | none ↦ pure tt
      | some (t, key) ↦ modify (send_message (subscribe t))
    ]
