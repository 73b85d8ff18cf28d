-- ===== src/V2/Interleaving/Sources.antt =====
-- Which messages of the relay may answer a request of WalletConnect 2.0.
use play_cpp_sdk.Prelude.{
  ℕ, ◌≡◌, refl, sym, ◌∙◌, ap, Bool, true, false, Option, none, some, List, [], All, Option-cases,
  inl, inr, if◌then◌else◌,
}
use play_cpp_sdk.Prelude.Text.{Text, Bytes, text_eq, text_eq_iff, codes}
use play_cpp_sdk.Rust.Effect.{Result, ok, err, panic}
use play_cpp_sdk.V1.Protocol.{Value, Topic, Response, Request, into_value}
use play_cpp_sdk.V1.Crypto.{Key}
use play_cpp_sdk.V2.Crypto.{Ciphers, decode_decrypt}
use play_cpp_sdk.V2.Protocol.{
  WcSessionProposeResponse, WcSessionSettle, WcSessionUpdate, WcSessionEvent, WcSessionDelete,
  WcSessionExtend, WcSessionPing,
}
use play_cpp_sdk.V2.Session.{SessionInfo}
use play_cpp_sdk.V2.Context.{Serde}
use play_cpp_sdk.V2.Dispatch.History.{Received}
use play_cpp_sdk.V2.Tasks.{
  Action, proposal_actions, settle_actions, update_actions, extend_actions, delete_actions,
  ping_actions, event_actions, response_actions, method_actions, named_actions, paired_actions,
  if_plain, pairing_actions, message_actions,
}
use play_cpp_sdk.V2.Interleaving.Owned.{Answering}

-- A message that answers the request `id` with `v`, for a client with the session `s`: a response on the
-- pairing's topic under its key, or a proposal's response on the proposal's topic under its key.
pub data IsAnswer (serde : Serde) (ciphers : Ciphers) (m : Received) (s : SessionInfo) (id : ℕ)
    (v : Value) : Type 0 where
  responds :
      (key : Key) (plain : Bytes) (response : Response Value)
      → s.pairing_topic_symkey ≡ some (m.topic, key)
      → decode_decrypt ciphers key m.message ≡ ok plain
      → serde.read_response plain ≡ some response
      → response.id ≡ id
      → into_value serde.error_to_value response.outcome ≡ some v
      → IsAnswer serde ciphers m s id v
  pairs_up :
      (plain : Bytes) (response : Response WcSessionProposeResponse)
      → m.topic ≡ s.session_proposal_topic
      → decode_decrypt ciphers s.session_proposal_symkey m.message ≡ ok plain
      → serde.read_propose_response plain ≡ some response
      → response.id ≡ id
      → serde.propose_response_to_value response ≡ some v
      → IsAnswer serde ciphers m s id v

module _ (serde : Serde) (ciphers : Ciphers) (id : ℕ) (v : Value) where
  -- Each of the accesses that may answer the request gives `X`.
  abbrev pub Gives : Type 0 → List Action → Type 0
  Gives X actions = All (λ a. Answering serde id v a → X) actions

  abbrev pub GivesSome : Type 0 → Option (List Action) → Type 0
  GivesSome X none = Unit
  GivesSome X (some actions) = Gives X actions

  branch-Gives :
      (X : Type 0) (b : Bool) (xs ys : List Action)
      → Gives X xs
      → Gives X ys
      → Gives X (if b then xs else ys)
  branch-Gives X true xs ys p q = p
  branch-Gives X false xs ys p q = q

  settle-Gives :
      (X : Type 0) (r : Option (Request WcSessionSettle)) → Gives X (settle_actions serde r)
  unfolding settle_actions
  settle-Gives X none = tt
  settle-Gives X (some r) = (λ h. absurd h, (λ h. absurd h, tt))

  update-Gives :
      (X : Type 0) (r : Option (Request WcSessionUpdate)) → Gives X (update_actions serde r)
  unfolding update_actions
  update-Gives X none = tt
  update-Gives X (some r) = (λ h. absurd h, (λ h. absurd h, (λ h. absurd h, tt)))

  extend-Gives :
      (X : Type 0) (r : Option (Request WcSessionExtend)) → Gives X (extend_actions serde r)
  unfolding extend_actions
  extend-Gives X none = tt
  extend-Gives X (some r) = (λ h. absurd h, (λ h. absurd h, (λ h. absurd h, tt)))

  delete-Gives :
      (X : Type 0) (r : Option (Request WcSessionDelete)) → Gives X (delete_actions serde r)
  unfolding delete_actions
  delete-Gives X none = tt
  delete-Gives X (some r) = (λ h. absurd h, (λ h. absurd h, (λ h. absurd h, tt)))

  ping-Gives : (X : Type 0) (r : Option (Request WcSessionPing)) → Gives X (ping_actions serde r)
  unfolding ping_actions
  ping-Gives X none = tt
  ping-Gives X (some r) = (λ h. absurd h, (λ h. absurd h, tt))

  event-Gives : (X : Type 0) (r : Option (Request WcSessionEvent)) → Gives X (event_actions serde r)
  unfolding event_actions
  event-Gives X none = tt
  event-Gives X (some r) = (λ h. absurd h, (λ h. absurd h, tt))

  method-Gives :
      (X : Type 0) (method : Text) (plain : Bytes) → Gives X (method_actions serde method plain)
  unfolding method_actions
  method-Gives X method plain =
      branch-Gives X (text_eq method (codes "wc_sessionSettle")) _ _ (settle-Gives X _) (
        branch-Gives X (text_eq method (codes "wc_sessionUpdate")) _ _ (update-Gives X _) (
          branch-Gives X (text_eq method (codes "wc_sessionExtend")) _ _ (extend-Gives X _) (
            branch-Gives X (text_eq method (codes "wc_sessionPing")) _ _ (ping-Gives X _) (
              branch-Gives X (text_eq method (codes "wc_sessionDelete")) _ _ (delete-Gives X _) (
                branch-Gives X (text_eq method (codes "wc_sessionEvent")) _ [] (event-Gives X _)
                  tt)))))

  named-Gives :
      (X : Type 0) (method : Option Text) (plain : Bytes)
      → Gives X (named_actions serde method plain)
  named-Gives X none plain = tt
  named-Gives X (some method) plain = method-Gives X method plain

  response-Gives :
      (X : Type 0) (r : Option (Response Value))
      → ((response : Response Value)
          → r ≡ some response
          → response.id ≡ id
          → into_value serde.error_to_value response.outcome ≡ some v
          → X)
      → Gives X (response_actions serde r)
  unfolding response_actions
  response-Gives X none found = tt
  response-Gives X (some response) found = (λ (i, d). found response refl i d, tt)

  proposal-Gives :
      (X : Type 0) (r : Option (Response WcSessionProposeResponse))
      → ((response : Response WcSessionProposeResponse)
          → r ≡ some response
          → response.id ≡ id
          → serde.propose_response_to_value response ≡ some v
          → X)
      → Gives X (proposal_actions serde r)
  unfolding proposal_actions
  proposal-Gives X none found = tt
  proposal-Gives X (some response) found =
      elim (Option-cases (serde.propose_response_to_value response)) [
        | inl e ↦ rw (e, proposal_actions) tt
        | inr (u, e) ↦
            rw (e, proposal_actions)
              (λ h. absurd h, (λ (i, d). found response refl i (e ∙ ap (λ x. some x) d), tt))
      ]

  paired-GivesSome :
      (X : Type 0) (plain : Bytes)
      → ((response : Response Value)
          → serde.read_response plain ≡ some response
          → response.id ≡ id
          → into_value serde.error_to_value response.outcome ≡ some v
          → X)
      → GivesSome X (paired_actions serde plain)
  unfolding paired_actions
  paired-GivesSome X plain found = elim (Option-cases (serde.read_json plain)) [
    | inl e ↦ rw (e, paired_actions) tt
    | inr (json, e) ↦ elim (Option-cases (serde.get_method json)) [
      | inl f ↦ rw (e, paired_actions) (rw f (response-Gives X _ found))
      | inr (name, f) ↦ rw (e, paired_actions) (rw f (named-Gives X (serde.as_str name) plain))
    ]
  ]

  plain-GivesSome :
      (X : Type 0) (d : Result (Unit {0}) Bytes) (f : Bytes → Option (List Action))
      → ((plain : Bytes) → d ≡ ok plain → GivesSome X (f plain))
      → GivesSome X (if_plain d f)
  plain-GivesSome X (ok plain) f given = given plain refl
  plain-GivesSome X (err e) f given = tt
  plain-GivesSome X panic f given = tt

  branch-GivesSome :
      (X : Type 0) (b : Bool) (xs ys : Option (List Action))
      → (b ≡ true → GivesSome X xs)
      → GivesSome X ys
      → GivesSome X (if b then xs else ys)
  branch-GivesSome X true xs ys p q = p refl
  branch-GivesSome X false xs ys p q = q

  pairing-GivesSome :
      (m : Received) (s : SessionInfo) (p : Option (Topic × Key))
      → s.pairing_topic_symkey ≡ p
      → GivesSome
          (IsAnswer serde ciphers m s id v)
          (pairing_actions serde ciphers m.topic m.message p)
  unfolding pairing_actions
  pairing-GivesSome m s none e = tt
  pairing-GivesSome m s (some (t, key)) e =
      branch-GivesSome _ (text_eq m.topic t) _ (some [])
        (λ same.
          let here : s.pairing_topic_symkey ≡ some (m.topic, key) =
            e ∙ ap (λ x. some (x, key)) (sym ((text_eq_iff m.topic t).0 same)) in
          plain-GivesSome _ (decode_decrypt ciphers key m.message) _ (λ plain d.
            paired-GivesSome _ plain
              (λ response reads i u. responds key plain response here d reads i u)))
        tt

  -- What a message's task does on reading it answers the request only if the message is an answer to it.
  pub message-GivesSome :
      (m : Received) (s : SessionInfo)
      → GivesSome
          (IsAnswer serde ciphers m s id v)
          (message_actions serde ciphers m.topic m.message s)
  unfolding message_actions
  message-GivesSome m s =
      branch-GivesSome _ (text_eq m.topic s.session_proposal_topic) _ _
        (λ same.
          let here = (text_eq_iff m.topic s.session_proposal_topic).0 same in
          plain-GivesSome _ (decode_decrypt ciphers s.session_proposal_symkey m.message) _
            (λ plain d.
              proposal-Gives _ (serde.read_propose_response plain)
                (λ response reads i u. pairs_up plain response here d reads i u)))
        (pairing-GivesSome m s s.pairing_topic_symkey refl)
