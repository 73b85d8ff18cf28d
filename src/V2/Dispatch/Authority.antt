-- ===== src/V2/Dispatch/Authority.antt =====
-- Who may change a session: only messages that decrypt under the key of the proposal or of the pairing, on its
-- topic, in the ways that the protocol has.
use play_cpp_sdk.Prelude.{
  ◌≡◌, refl, ◌∙◌, Bool, true, false, Option, none, some, arith, if◌then◌else◌, Option-cases, inl,
  inr,
}
use play_cpp_sdk.Prelude.Text.{Text, Bytes, text_eq, text_eq_iff, codes}
use play_cpp_sdk.Rust.Effect.{Result, ok, err, panic}
use play_cpp_sdk.Hex.{Hex}
use play_cpp_sdk.V1.Protocol.{Value, Topic}
use play_cpp_sdk.V1.Crypto.{Key}
use play_cpp_sdk.V2.Crypto.{Ciphers, decode_decrypt}
use play_cpp_sdk.V2.Session.{SessionInfo}
use play_cpp_sdk.V2.Context.{Serde, Error, World}
use play_cpp_sdk.V2.Handlers.{
  handle_session_proposal_response, handle_session_settle_request, handle_session_event_request,
  handle_session_delete_request, handle_session_update_request, handle_session_extend_request,
  handle_session_ping_request, handle_normal_rpc_response,
}
use play_cpp_sdk.V2.Handlers.Settled.{event_kept, extend_kept, ping_kept, normal_kept}
use play_cpp_sdk.V2.Handlers.Changes.{
  Requested, stays, Proposed, settle_changes, update_changes, delete_changes, proposal_changes,
}
use play_cpp_sdk.V2.Dispatch.{
  ignored, with_plain, handle_method, on_pairing, handle_paired, handle_proposal, message_received,
}

ignored-session : (r : World × Result Error (Unit {0})) → (ignored r).0.session ≡ r.0.session
ignored-session (w, ok a) = refl
ignored-session (w, err e) = refl
ignored-session (w, panic) = refl

-- A property of the session behind a run, on either branch of a test.
branch :
    (P : SessionInfo → Type 0) (b : Bool) (r s : World × Result Error (Unit {0}))
    → (b ≡ true → P r.0.session)
    → P s.0.session
    → P (if b then r else s).0.session
branch P true r s first second = first refl
branch P false r s first second = second

module _ (serde : Serde) (ciphers : Ciphers) (hex : Hex) where
  -- The method that a decrypted text names.
  abbrev pub Names : Bytes → Text → Type 0
  Names plain method =
      (json : Value) × (value : Value) × (serde.read_json plain ≡ some json)
      × (serde.get_method json ≡ some value)
      × (serde.as_str value ≡ some method)

  -- How a message on a topic changes a session.
  pub data Change (topic : Topic) (message : Text) (s s' : SessionInfo) : Type 0 where
    unchanged : s' ≡ s → Change topic message s s'
    answered :
        (plain : Bytes)
        → topic ≡ s.session_proposal_topic
        → decode_decrypt ciphers s.session_proposal_symkey message ≡ ok plain
        → Proposed serde ciphers hex plain s s'
        → Change topic message s s'
    requested :
        (key : Key) (plain : Bytes) (method : Text)
        → s.pairing_topic_symkey ≡ some (topic, key)
        → decode_decrypt ciphers key message ≡ ok plain
        → Names plain method
        → Requested serde ciphers hex method plain s s'
        → Change topic message s s'

module _ (serde : Serde) (ciphers : Ciphers) (hex : Hex) (nonce : Bytes) (has_callback : Bool) where
  method_changes :
      (method : Text) (plain : Bytes) (w : World)
      → Requested serde ciphers hex method plain w.session
          (handle_method serde ciphers hex nonce has_callback method plain w).0.session
  unfolding handle_method
  method_changes method plain w =
      let P = Requested serde ciphers hex method plain w.session in
      branch P (text_eq method (codes "wc_sessionSettle")) _ _
        (λ t.
          rw (ignored-session (handle_session_settle_request serde ciphers hex nonce plain w))
            (settle_changes serde ciphers hex method nonce plain w ((text_eq_iff method _).0 t)))
        (branch P (text_eq method (codes "wc_sessionUpdate")) _ _
          (λ t.
            rw
              (ignored-session
                (handle_session_update_request serde ciphers hex nonce plain has_callback w))
              (update_changes serde ciphers hex method nonce plain has_callback w
                ((text_eq_iff method _).0 t)))
          (branch P (text_eq method (codes "wc_sessionExtend")) _ _
            (λ t. stays (
              ignored-session
                (handle_session_extend_request serde ciphers hex nonce plain has_callback w)
              ∙ extend_kept serde ciphers hex nonce plain has_callback w))
            (branch P (text_eq method (codes "wc_sessionPing")) _ _
              (λ t. stays (
                ignored-session
                  (handle_session_ping_request serde ciphers hex nonce plain has_callback w)
                ∙ ping_kept serde ciphers hex nonce plain has_callback w))
              (branch P (text_eq method (codes "wc_sessionDelete")) _ _
                (λ t.
                  rw
                    (ignored-session
                      (handle_session_delete_request serde ciphers hex nonce plain has_callback w))
                    (delete_changes serde ciphers hex method nonce plain has_callback w
                      ((text_eq_iff method _).0 t)))
                (branch P (text_eq method (codes "wc_sessionEvent")) _ _
                  (λ t. stays (
                    ignored-session
                      (handle_session_event_request serde ciphers hex nonce plain has_callback w)
                    ∙ event_kept serde ciphers hex nonce plain has_callback w))
                  (stays refl))))))

  -- A text of the pairing changes the session as the request that it is, if it is one.
  paired_changes :
      (topic : Topic) (message : Text) (key : Key) (plain : Bytes) (w : World)
      → w.session.pairing_topic_symkey ≡ some (topic, key)
      → decode_decrypt ciphers key message ≡ ok plain
      → Change serde ciphers hex topic message w.session
          (handle_paired serde ciphers hex nonce has_callback plain w).0.session
  unfolding handle_paired
  paired_changes topic message key plain w paired decrypts =
      elim (Option-cases (serde.read_json plain)) [
        | inl bad ↦ unchanged (ground arith)
        | inr (json, e1) ↦ elim (Option-cases (serde.get_method json)) [
          | inl answer ↦
              let same = ignored-session (handle_normal_rpc_response serde ciphers hex plain w) in
              let kept = normal_kept serde ciphers hex plain w in
              unchanged (rw (handle_paired, e1, answer) (same ∙ kept))
          | inr (value, e2) ↦ elim (Option-cases (serde.as_str value)) [
            | inl unnamed ↦ unchanged (rw (handle_paired, e1, e2, unnamed) refl)
            | inr (method, e3) ↦
                requested key plain method paired decrypts (json, value, e1, e2, e3)
                  (rw (handle_paired, e1, e2, e3) (method_changes method plain w))
          ]
        ]
      ]

  -- Whatever message arrives on whatever topic, and whether its task ends or panics, the session stays as it
  -- is unless the message decrypts under the proposal's key on the proposal's topic, and is the answer
  -- that pairs, or decrypts under the pairing's key on the pairing's topic, and is a request to
  -- settle, to update or to delete the session; then it changes as this request says.
  pub message_received-Change :
      (topic : Topic) (message : Text) (w : World)
      → Change serde ciphers hex topic message w.session
          (message_received serde ciphers hex nonce has_callback topic message w).0.session
  unfolding message_received on_pairing handle_proposal
  message_received-Change topic message w =
      branch (Change serde ciphers hex topic message w.session)
        (text_eq topic w.session.session_proposal_topic) _ _
        (λ t. proposed ((text_eq_iff topic _).0 t) _ refl)
        (paired w.session.pairing_topic_symkey refl)
    where
      proposed :
          topic ≡ w.session.session_proposal_topic
          → (d : Result (Unit {0}) Bytes)
          → decode_decrypt ciphers w.session.session_proposal_symkey message ≡ d
          → Change serde ciphers hex topic message w.session
              (with_plain d (handle_proposal serde ciphers hex nonce has_callback) w).0.session
      proposed here (ok plain) decrypts = answered plain here decrypts (
          rw (ignored-session (handle_session_proposal_response serde ciphers hex plain w))
            (proposal_changes serde ciphers hex plain w))
      proposed here (err e) decrypts = unchanged refl
      proposed here panic decrypts = unchanged refl

      opened :
          (t : Topic) (key : Key)
          → w.session.pairing_topic_symkey ≡ some (t, key)
          → topic ≡ t
          → (d : Result (Unit {0}) Bytes) → decode_decrypt ciphers key message ≡ d
          → Change serde ciphers hex topic message w.session
              (with_plain d (handle_paired serde ciphers hex nonce has_callback) w).0.session
      opened t key has here (ok plain) decrypts =
          paired_changes topic message key plain w (rw here has) decrypts
      opened t key has here (err e) decrypts = unchanged refl
      opened t key has here panic decrypts = unchanged refl

      paired :
          (p : Option (Topic × Key))
          → w.session.pairing_topic_symkey ≡ p
          → Change serde ciphers hex topic message w.session
              (on_pairing serde ciphers hex nonce has_callback topic message p w).0.session
      paired none has = unchanged refl
      paired (some (t, key)) has =
          branch (Change serde ciphers hex topic message w.session) (text_eq topic t) _ _
            (λ h. opened t key has ((text_eq_iff topic t).0 h) _ refl) (unchanged refl)
