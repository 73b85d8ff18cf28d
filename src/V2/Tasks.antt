-- ===== src/V2/Tasks.antt =====
-- The task that wallet-connect/src/v2/core.rs spawns for each message of the relay, in the steps in which
-- it has the shared state to itself: it reads the session under the lock and decrypts, and then makes
-- the accesses of one handler, one after the other.
pub mod Handlers
pub mod Whole
use play_cpp_sdk.Prelude.{
  ℕ, Bool, true, Option, none, some, List, [], ◌∷◌, if◌then◌else◌, unwrap_or,
}
use play_cpp_sdk.Prelude.Text.{Text, Bytes, text_eq, codes}
use play_cpp_sdk.Rust.Effect.{M, Result, ok, err, panic, ◌>>=◌, ◌>>◌, pure, get, modify, or_fail}
use play_cpp_sdk.Hex.{Hex}
use play_cpp_sdk.V1.Protocol.{
  Value, Topic, Request, Response, new_response, ResponseData, into_value,
}
use play_cpp_sdk.V1.Crypto.{Key}
use play_cpp_sdk.V2.Crypto.{Ciphers, decode_decrypt}
use play_cpp_sdk.V2.Protocol.{
  WcSessionProposeResponse, WcSessionSettle, WcSessionUpdate, WcSessionEvent, WcSessionDelete,
  WcSessionExtend, WcSessionPing,
}
use play_cpp_sdk.V2.Session.{SessionInfo}
use play_cpp_sdk.V2.Session
use play_cpp_sdk.V2.Tag
use play_cpp_sdk.V2.Context.{
  Codec, Serde, Error, request_not_found, serialization, Oneshot, sent, dropped, World,
  take_pending, with_session, notify_waiters, send_response, send_callback,
}
use play_cpp_sdk.V2.Handlers.{apply_proposal}
use play_cpp_sdk.V2.Dispatch.History.{Received}

-- One access of a handler to what the tasks share. `acknowledges` has the id and the tag of the answer,
-- and `tells` what the request of the wallet serialises as for the application.
pub data Action : Type 0 where
  acknowledges : ℕ → ℕ → Action
  tells : Option Text → Action
  pairs : ResponseData WcSessionProposeResponse → Action
  answers : ℕ → Value → Action
  settles : WcSessionSettle → Action
  updates : WcSessionUpdate → Action
  extends deletes : Action
  resolves : Response Value → Action

-- The session's lock is held while it is settled and the waiters are notified.
unfoldable pub settle_session : WcSessionSettle → World → World
unfolding with_session notify_waiters Session.session_settle
settle_session params w =
    notify_waiters
      (with_session (record (Session.session_settle w.session params) { connected = true }) w)

-- What was serialised before.
abbrev pub written : Codec (Option Text)
written = record { read = λ _. none; write = λ text. text }

module _ (serde : Serde) where
  -- The end of `handle_normal_rpc_response`: the request leaves the map, and its channel gets the value.
  unfoldable pub resolve : Response Value → M World Error (Unit {0})
  unfolding take_pending into_value
  resolve response = do
    w ← get
    let value = into_value serde.error_to_value response.outcome
    let state : Oneshot = elim value [ none ↦ dropped | some v ↦ sent v ]
    w' ← or_fail (take_pending response.id state w) request_not_found
    modify (λ _. w')
    _ ← or_fail value serialization
    pure tt

module _ (serde : Serde) (ciphers : Ciphers) (hex : Hex) (has_callback : Bool) (nonce : Bytes) where
  unfoldable pub act : Action → M World Error (Unit {0})
  unfolding resolve
  act (acknowledges id tag) = send_response serde ciphers nonce (new_response id true) tag
  act (tells text) = send_callback serde ciphers written text has_callback
  act (pairs outcome) = modify (apply_proposal serde ciphers hex outcome)
  act (answers id value) = modify (λ w. unwrap_or (take_pending id (sent value) w) w)
  act (settles params) = modify (settle_session params)
  act (updates params) = modify (λ w. with_session (Session.session_update w.session params) w)
  act extends = modify (λ w. with_session (Session.session_extend w.session) w)
  act deletes = modify (λ w. with_session (Session.session_delete w.session) w)
  act (resolves response) = resolve serde response

  -- All accesses, with nothing of other tasks between them; an error or a panic ends the task.
  unfoldable pub run : List Action → M World Error (Unit {0})
  unfolding act
  run [] = pure tt
  run (a ∷ rest) = act a >> run rest

-- What each handler does once its message is read.
module _ (serde : Serde) where
  unfoldable pub proposal_actions : Option (Response WcSessionProposeResponse) → List Action
  proposal_actions none = []
  proposal_actions (some response) = elim (serde.propose_response_to_value response) [
    | none ↦ []
    | some value ↦ pairs response.outcome ∷ answers response.id value ∷ []
  ]

  unfoldable pub settle_actions : Option (Request WcSessionSettle) → List Action
  settle_actions none = []
  settle_actions (some request) =
      acknowledges request.id Tag.settle_response ∷ settles request.params ∷ []

  unfoldable pub update_actions : Option (Request WcSessionUpdate) → List Action
  update_actions none = []
  update_actions (some request) =
      updates request.params
      ∷ acknowledges request.id Tag.update_response
      ∷ tells (serde.update.write request)
      ∷ []

  unfoldable pub extend_actions : Option (Request WcSessionExtend) → List Action
  extend_actions none = []
  extend_actions (some request) =
      extends
      ∷ acknowledges request.id Tag.extend_response
      ∷ tells (serde.extend.write request)
      ∷ []

  unfoldable pub delete_actions : Option (Request WcSessionDelete) → List Action
  delete_actions none = []
  delete_actions (some request) =
      deletes
      ∷ acknowledges request.id Tag.delete_response
      ∷ tells (serde.delete.write request)
      ∷ []

  unfoldable pub ping_actions : Option (Request WcSessionPing) → List Action
  ping_actions none = []
  ping_actions (some request) =
      acknowledges request.id Tag.ping_response ∷ tells (serde.ping.write request) ∷ []

  unfoldable pub event_actions : Option (Request WcSessionEvent) → List Action
  event_actions none = []
  event_actions (some request) =
      acknowledges request.id Tag.event_response ∷ tells (serde.event.write request) ∷ []

  unfoldable pub response_actions : Option (Response Value) → List Action
  response_actions none = []
  response_actions (some response) = resolves response ∷ []

  unfoldable pub method_actions : Text → Bytes → List Action
  unfolding settle_actions update_actions extend_actions delete_actions ping_actions event_actions
  method_actions method plain =
      if text_eq method (codes "wc_sessionSettle")
      then settle_actions (serde.settle.read plain)
      else if text_eq method (codes "wc_sessionUpdate")
      then update_actions (serde.update.read plain)
      else if text_eq method (codes "wc_sessionExtend")
      then extend_actions (serde.extend.read plain)
      else if text_eq method (codes "wc_sessionPing")
      then ping_actions (serde.ping.read plain)
      else if text_eq method (codes "wc_sessionDelete")
      then delete_actions (serde.delete.read plain)
      else if text_eq method (codes "wc_sessionEvent")
      then event_actions (serde.event.read plain)
      else []

  abbrev pub named_actions : Option Text → Bytes → List Action
  named_actions none plain = []
  named_actions (some method) plain = method_actions method plain

  -- `none`: the task panics, on a text that is no JSON.
  unfoldable pub paired_actions : Bytes → Option (List Action)
  unfolding method_actions response_actions
  paired_actions plain = elim (serde.read_json plain) [
    | none ↦ none
    | some plainjson ↦ elim (serde.get_method plainjson) [
      | some method_value ↦ some (named_actions (serde.as_str method_value) plain)
      | none ↦ some (response_actions (serde.read_response plain))
    ]
  ]

-- What is done with a decrypted text, and with one that does not decrypt.
abbrev pub if_plain :
    Result (Unit {0}) Bytes → (Bytes → Option (List Action)) → Option (List Action)
if_plain (ok plain) f = f plain
if_plain (err e) f = some []
if_plain panic f = none

module _ (serde : Serde) (ciphers : Ciphers) where
  unfoldable pub pairing_actions : Topic → Text → Option (Topic × Key) → Option (List Action)
  unfolding paired_actions
  pairing_actions topic message none = some []
  pairing_actions topic message (some (t, key)) =
      if text_eq topic t
      then if_plain (decode_decrypt ciphers key message) (paired_actions serde)
      else some []

  -- The first step of the task: under the lock it finds what to do, or panics.
  unfoldable pub message_actions : Topic → Text → SessionInfo → Option (List Action)
  unfolding pairing_actions proposal_actions
  message_actions topic message s =
      if text_eq topic s.session_proposal_topic
      then if_plain (decode_decrypt ciphers s.session_proposal_symkey message)
          (λ plain. some (proposal_actions serde (serde.read_propose_response plain)))
      else pairing_actions topic message s.pairing_topic_symkey

-- A task that has not started, or one with what it has left to do.
pub data Task : Type 0 where
  arrived : Received → Task
  handling : Bytes → List Action → Task

module _ (serde : Serde) (ciphers : Ciphers) (hex : Hex) (has_callback : Bool) where
  abbrev pub started : Bytes → Option (List Action) → List Task
  started nonce none = []
  started nonce (some actions) = handling nonce actions ∷ []

  abbrev pub remaining : Bytes → List Action → World × Result Error (Unit {0}) → World × List Task
  remaining nonce rest (w, ok a) = (w, handling nonce rest ∷ [])
  remaining nonce rest (w, err e) = (w, [])
  remaining nonce rest (w, panic) = (w, [])

  -- One step of a task, and the task that is left.
  unfoldable pub resume : Task → World → World × List Task
  unfolding message_actions act
  resume (arrived m) w =
      (w, started m.nonce (message_actions serde ciphers m.topic m.message w.session))
  resume (handling nonce []) w = (w, [])
  resume (handling nonce (a ∷ rest)) w =
      remaining nonce rest (act serde ciphers hex has_callback nonce a w)
