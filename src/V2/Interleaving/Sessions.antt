-- ===== src/V2/Interleaving/Sessions.antt =====
-- However the tasks of WalletConnect 2.0 interleave: what a connected session has.
use play_cpp_sdk.Prelude.{
  ◌≡◌, refl, true, Bool, Option, List, [], ◌∷◌, arith, Option-cases, inl, inr, subst, sym,
}
use play_cpp_sdk.Prelude.Text.{Text, Bytes}
use play_cpp_sdk.Prelude.Assoc.{lookup}
use play_cpp_sdk.Rust.Effect.{Result, ok, err, panic}
use play_cpp_sdk.Hex.{Hex}
use play_cpp_sdk.V1.Protocol.{
  Value, Topic, Response, ResponseData, success, failure, new_response, into_value, into_result,
}
use play_cpp_sdk.V2.Crypto.{Ciphers}
use play_cpp_sdk.V2.Protocol.{WcSessionProposeResponse}
use play_cpp_sdk.V2.Session
use play_cpp_sdk.V2.Session.{SessionInfo}
use play_cpp_sdk.V2.Context.{
  Serde, Error, World, sent, ConnectorMessage, publish, subscribe, with_session, notify_waiters,
  register, send_message,
}
use play_cpp_sdk.V2.Handlers.Replies.{send_response-session, send_callback-session}
use play_cpp_sdk.V2.Handlers.Settled.{IsSettled, accept_proposal_kept, take_pending-session}
use play_cpp_sdk.V2.Handlers.{apply_proposal}
use play_cpp_sdk.V2.Tasks.{
  Action, acknowledges, tells, pairs, answers, settles, updates, extends, deletes, resolves, act,
  resolve, settle_session, Task, arrived, handling, resume, remaining, written,
}
use play_cpp_sdk.V2.Connector.{task_step}
use play_cpp_sdk.V2.Interleaving.{
  Pool, resumed, Step, arrives, runs, registers, queues, serves, leaves, Reach, here, next,
}

module _ (serde : Serde) (ciphers : Ciphers) (hex : Hex) where
  resolve-session :
      (response : Response Value) (w : World) → (resolve serde response w).0.session ≡ w.session
  unfolding resolve
  resolve-session response w = elim (Option-cases (lookup response.id w.pending_requests)) [
    | inl bad ↦ ground arith
    | inr (ch, good) ↦ elim (Option-cases (into_value serde.error_to_value response.outcome)) [
      | inl bad ↦ ground arith
      | inr (v, value) ↦ ground arith
    ]
  ]

  apply_proposal-IsSettled :
      (outcome : ResponseData WcSessionProposeResponse) (w : World)
      → IsSettled w.session
      → IsSettled (apply_proposal serde ciphers hex outcome w).session
  unfolding apply_proposal into_result
  apply_proposal-IsSettled (failure e) w settled = settled
  apply_proposal-IsSettled (success r) w settled =
      accept_proposal_kept serde ciphers hex r w settled

module _ (serde : Serde) (ciphers : Ciphers) (hex : Hex) (has_callback : Bool) where
  same-IsSettled : (s s' : SessionInfo) → s' ≡ s → IsSettled s → IsSettled s'
  same-IsSettled s s' e settled = subst IsSettled (sym e) settled

  act-IsSettled :
      (nonce : Bytes) (a : Action) (w : World)
      → IsSettled w.session
      → IsSettled (act serde ciphers hex has_callback nonce a w).0.session
  unfolding act IsSettled settle_session with_session notify_waiters Session.session_settle
      Session.session_update Session.session_extend Session.session_delete
  act-IsSettled nonce (acknowledges id tag) w settled =
      same-IsSettled _ _
        (send_response-session serde ciphers hex nonce (new_response id true) tag w) settled
  act-IsSettled nonce (tells text) w settled =
      same-IsSettled _ _ (send_callback-session serde ciphers hex written text has_callback w)
        settled
  act-IsSettled nonce (pairs outcome) w settled =
      apply_proposal-IsSettled serde ciphers hex outcome w settled
  act-IsSettled nonce (answers id value) w settled =
      same-IsSettled _ _ (take_pending-session serde ciphers hex id (sent value) w) settled
  act-IsSettled nonce (settles params) w settled = refl
  act-IsSettled nonce (updates params) w settled = ground arith
  act-IsSettled nonce extends w settled = settled
  act-IsSettled nonce deletes w settled = refl
  act-IsSettled nonce (resolves response) w settled =
      same-IsSettled _ _ (resolve-session serde ciphers hex response w) settled

  remaining-IsSettled :
      (nonce : Bytes) (rest : List Action) (r : World × Result Error (Unit {0}))
      → IsSettled r.0.session
      → IsSettled (remaining serde ciphers hex has_callback nonce rest r).0.session
  remaining-IsSettled nonce rest (w, ok a) settled = settled
  remaining-IsSettled nonce rest (w, err e) settled = settled
  remaining-IsSettled nonce rest (w, panic) settled = settled

  resume-IsSettled :
      (t : Task) (w : World)
      → IsSettled w.session
      → IsSettled (resume serde ciphers hex has_callback t w).0.session
  unfolding resume
  resume-IsSettled (arrived m) w settled = settled
  resume-IsSettled (handling nonce []) w settled = settled
  resume-IsSettled (handling nonce (a ∷ rest)) w settled =
      remaining-IsSettled nonce rest _ (act-IsSettled nonce a w settled)

  task_step-session :
      (relay : Topic → Option Text) (m : ConnectorMessage) (rest : List ConnectorMessage)
      (w : World)
      → (task_step relay m (record w { queue = rest })).session ≡ w.session
  unfolding task_step
  task_step-session relay (publish topic message tag) rest w = refl
  task_step-session relay (subscribe topic) rest w = elim (Option-cases (relay topic)) [
    | inl e ↦ ground arith
    | inr (id, e) ↦ ground arith
  ]

  Step-IsSettled :
      {p p' : Pool}
      → Step serde ciphers hex has_callback p p'
      → IsSettled p.world.session
      → IsSettled p'.world.session
  unfolding resumed register send_message
  Step-IsSettled {p} (arrives m e) settled = rw e settled
  Step-IsSettled {p} (runs before t behind shape e) settled =
      rw e (resume-IsSettled t p.world settled)
  Step-IsSettled {p} (registers id e) settled = rw e settled
  Step-IsSettled {p} (queues message e) settled = rw e (same-IsSettled _ _ (ground arith) settled)
  Step-IsSettled {p} (serves relay message rest shape e) settled =
      rw e (same-IsSettled _ _ (task_step-session relay message rest p.world) settled)
  Step-IsSettled {p} (leaves e) settled = rw e settled

  -- However the tasks of the client interleave: if the session was not connected, or had the wallet's
  -- namespaces and metadata, then in every later state it is not connected or has both.
  pub Reach-IsSettled :
      {p p' : Pool}
      → IsSettled p.world.session
      → Reach serde ciphers hex has_callback p p'
      → IsSettled p'.world.session
  Reach-IsSettled settled here = settled
  Reach-IsSettled settled (next r s) = Step-IsSettled s (Reach-IsSettled settled r)
