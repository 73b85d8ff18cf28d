-- ===== src/V2/Interleaving/Channels.antt =====
-- However the tasks of WalletConnect 2.0 interleave: a request is answered at most once.
use play_cpp_sdk.Prelude.{
  true, ℕ, ◌≡◌, refl, ◌⊎◌, inl, inr, Bool, Option, List, [], ◌∷◌, arith, Option-cases, unwrap_or,
}
use play_cpp_sdk.Prelude.Text.{Text, Bytes}
use play_cpp_sdk.Rust.Effect.{Result, ok, err, panic}
use play_cpp_sdk.Hex.{Hex}
use play_cpp_sdk.V1.Protocol.{
  Value, Topic, Response, ResponseData, success, failure, new_response, into_value, into_result,
}
use play_cpp_sdk.V2.Crypto.{Ciphers}
use play_cpp_sdk.V2.Protocol.{WcSessionProposeResponse}
use play_cpp_sdk.V2.Context.{
  Codec, Serde, Error, World, sent, dropped, ConnectorMessage, publish, subscribe, take_pending,
  with_session, notify_waiters, send_message, send_response, send_callback,
}
use play_cpp_sdk.V2.Context.Pending.{
  IsLinked, Tracks, Tracks-trans, Same, Same-refl, Same-Tracks, take_pending-Tracks,
  register-Tracks,
}
use play_cpp_sdk.V2.Handlers.{apply_proposal, accept_proposal}
use play_cpp_sdk.V2.Tasks.{
  Action, acknowledges, tells, pairs, answers, settles, updates, extends, deletes, resolves, act,
  resolve, settle_session, Task, arrived, handling, resume, remaining, written,
}
use play_cpp_sdk.V2.Connector.{task_step}
use play_cpp_sdk.V2.Interleaving.{
  Pool, resumed, Step, arrives, runs, registers, queues, serves, leaves, Reach, here, next,
}

pub send_message-Same : (m : ConnectorMessage) (w : World) → Same w (send_message m w)
unfolding send_message
send_message-Same m w = record {
  pending = ground arith;
  oneshots = ground arith;
  next = ground arith;
}

module _ (serde : Serde) (ciphers : Ciphers) (hex : Hex) where
  send_response-Same :
      (nonce : Bytes) (response : Response Bool) (tag : ℕ) (w : World)
      → Same w (send_response serde ciphers nonce response tag w).0
  unfolding send_response send_message
  send_response-Same nonce response tag w = elim (Option-cases (serde.write_ack response)) [
    | inl e ↦ rw e (Same-refl w)
    | inr (text, e) ↦ elim (Option-cases w.session.pairing_topic_symkey) [
      | inl f ↦ record { pending = ground arith; oneshots = ground arith; next = ground arith }
      | inr ((t, key), f) ↦ record {
        pending = ground arith;
        oneshots = ground arith;
        next = ground arith;
      }
    ]
  ]

  send_callback-Same :
      {T : Type 0} (codec : Codec T) (message : T) (has_callback : Bool) (w : World)
      → Same w (send_callback serde ciphers codec message has_callback w).0
  unfolding send_callback
  send_callback-Same codec message has_callback w = elim (Option-cases (codec.write message)) [
    | inl e ↦ rw e (Same-refl w)
    | inr (text, e) ↦ record {
      pending = ground arith;
      oneshots = ground arith;
      next = ground arith;
    }
  ]

  apply_proposal-Same :
      (outcome : ResponseData WcSessionProposeResponse) (w : World)
      → Same w (apply_proposal serde ciphers hex outcome w)
  unfolding apply_proposal into_result accept_proposal with_session send_message
  apply_proposal-Same (failure e) w = Same-refl w
  apply_proposal-Same (success r) w = record {
    pending = ground arith;
    oneshots = ground arith;
    next = ground arith;
  }

  resolve-Tracks :
      (response : Response Value) (w : World) → IsLinked w → Tracks w (resolve serde response w).0
  unfolding resolve
  resolve-Tracks response w l =
      elim (Option-cases (into_value serde.error_to_value response.outcome)) [
        | inl e ↦
            let same : (resolve serde response w).0
                ≡ unwrap_or (take_pending response.id dropped w) w =
              ground arith in
            rw same (take_pending-Tracks response.id dropped w (λ q. cc) l)
        | inr (v, e) ↦
            let same : (resolve serde response w).0
                ≡ unwrap_or (take_pending response.id (sent v) w) w =
              ground arith in
            rw same (take_pending-Tracks response.id (sent v) w (λ q. cc) l)
      ]

module _ (serde : Serde) (ciphers : Ciphers) (hex : Hex) (has_callback : Bool) where
  -- The accesses that use no sender.
  abbrev pub IsQuiet : Action → Type 0
  IsQuiet (answers id value) = ⊥
  IsQuiet (resolves response) = ⊥
  IsQuiet (acknowledges id tag) = Unit
  IsQuiet (tells text) = Unit
  IsQuiet (pairs outcome) = Unit
  IsQuiet (settles params) = Unit
  IsQuiet (updates params) = Unit
  IsQuiet extends = Unit
  IsQuiet deletes = Unit

  pub act-Same :
      (nonce : Bytes) (a : Action) (w : World)
      → IsQuiet a
      → Same w (act serde ciphers hex has_callback nonce a w).0
  unfolding act settle_session with_session notify_waiters
  act-Same nonce (answers id value) w quiet = absurd quiet
  act-Same nonce (resolves response) w quiet = absurd quiet
  act-Same nonce (acknowledges id tag) w quiet =
      send_response-Same serde ciphers hex nonce (new_response id true) tag w
  act-Same nonce (tells text) w quiet =
      send_callback-Same serde ciphers hex written text has_callback w
  act-Same nonce (pairs outcome) w quiet = apply_proposal-Same serde ciphers hex outcome w
  act-Same nonce (settles params) w quiet = record { pending = refl; oneshots = refl; next = refl }
  act-Same nonce (updates params) w quiet = record { pending = refl; oneshots = refl; next = refl }
  act-Same nonce extends w quiet = record { pending = refl; oneshots = refl; next = refl }
  act-Same nonce deletes w quiet = record { pending = refl; oneshots = refl; next = refl }

  pub IsQuiet-cases :
      (a : Action)
      → IsQuiet a
        ⊎ (((id : ℕ) × (v : Value) × (a ≡ answers id v))
            ⊎ ((r : Response Value) × (a ≡ resolves r)))
  IsQuiet-cases (answers id value) = inr (inl (id, value, refl))
  IsQuiet-cases (resolves response) = inr (inr (response, refl))
  IsQuiet-cases (acknowledges id tag) = inl tt
  IsQuiet-cases (tells text) = inl tt
  IsQuiet-cases (pairs outcome) = inl tt
  IsQuiet-cases (settles params) = inl tt
  IsQuiet-cases (updates params) = inl tt
  IsQuiet-cases extends = inl tt
  IsQuiet-cases deletes = inl tt

  -- Each access of a handler keeps the map and the channels linked.
  act-Tracks :
      (nonce : Bytes) (a : Action) (w : World)
      → IsLinked w
      → Tracks w (act serde ciphers hex has_callback nonce a w).0
  act-Tracks nonce a w l = elim (IsQuiet-cases a) [
    | inl quiet ↦ Same-Tracks w _ l (act-Same nonce a w quiet)
    | inr (inl (id, v, e)) ↦ rw e (unfold act in take_pending-Tracks id (sent v) w (λ q. cc) l)
    | inr (inr (r, e)) ↦ rw e (unfold act in resolve-Tracks serde ciphers hex r w l)
  ]

  pub remaining-world :
      (nonce : Bytes) (rest : List Action) (r : World × Result Error (Unit {0}))
      → (remaining serde ciphers hex has_callback nonce rest r).0 ≡ r.0
  remaining-world nonce rest (w, ok a) = refl
  remaining-world nonce rest (w, err e) = refl
  remaining-world nonce rest (w, panic) = refl

  resume-Tracks :
      (t : Task) (w : World) → IsLinked w → Tracks w (resume serde ciphers hex has_callback t w).0
  unfolding resume
  resume-Tracks (arrived m) w l = Same-Tracks w w l (Same-refl w)
  resume-Tracks (handling nonce []) w l = Same-Tracks w w l (Same-refl w)
  resume-Tracks (handling nonce (a ∷ rest)) w l =
      rw (remaining-world nonce rest (act serde ciphers hex has_callback nonce a w))
        (act-Tracks nonce a w l)

  pub task_step-Same :
      (relay : Topic → Option Text) (m : ConnectorMessage) (rest : List ConnectorMessage)
      (w : World)
      → Same w (task_step relay m (record w { queue = rest }))
  unfolding task_step
  task_step-Same relay (publish topic message tag) rest w = record {
    pending = refl;
    oneshots = refl;
    next = refl;
  }
  task_step-Same relay (subscribe topic) rest w = elim (Option-cases (relay topic)) [
    | inl e ↦ record { pending = ground arith; oneshots = ground arith; next = ground arith }
    | inr (id, e) ↦ record { pending = ground arith; oneshots = ground arith; next = ground arith }
  ]

  Step-Tracks :
      {p p' : Pool}
      → Step serde ciphers hex has_callback p p'
      → IsLinked p.world
      → Tracks p.world p'.world
  unfolding resumed
  Step-Tracks {p} (arrives m e) l = rw e (Same-Tracks p.world _ l (Same-refl p.world))
  Step-Tracks {p} (runs before t behind shape e) l = rw e (resume-Tracks t p.world l)
  Step-Tracks {p} (registers id e) l = rw e (register-Tracks id p.world l)
  Step-Tracks {p} (queues message e) l =
      rw e (Same-Tracks p.world _ l (send_message-Same message p.world))
  Step-Tracks {p} (serves relay message rest shape e) l =
      rw e (Same-Tracks p.world _ l (task_step-Same relay message rest p.world))
  Step-Tracks {p} (leaves e) l =
      rw e (Same-Tracks p.world _ l (record { pending = refl; oneshots = refl; next = refl }))

  -- However the tasks of the client interleave, from a state in which no two pending requests share
  -- a channel and the channel of each is unused: every later state is such a state again, and a
  -- request that got its answer (or lost its sender) keeps it, so there is no second answer.
  pub Reach-Keeps :
      {p p' : Pool}
      → IsLinked p.world
      → Reach serde ciphers hex has_callback p p'
      → Tracks p.world p'.world
  Reach-Keeps {p} l here = Same-Tracks p.world p.world l (Same-refl p.world)
  Reach-Keeps {p} {p'} l (next {q} r s) =
      let t = Reach-Keeps l r in Tracks-trans p.world q.world p'.world t (Step-Tracks s t.0)
