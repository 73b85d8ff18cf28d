-- ===== src/V2/Dispatch/Topics.antt =====
-- Which messages of the relay are handled, and what they keep.
use play_cpp_sdk.Prelude.{
  ◌≡◌, ◌≢◌, Bool, true, false, Option, none, some, arith, if◌then◌else◌, subst, sym,
}
use play_cpp_sdk.Prelude.Text.{Text, Bytes, text_eq, text_eq_iff, codes}
use play_cpp_sdk.Rust.Effect.{M, Result, ok, err, panic}
use play_cpp_sdk.Hex.{Hex}
use play_cpp_sdk.V1.Protocol.{Value, Topic}
use play_cpp_sdk.V1.Crypto.{Key}
use play_cpp_sdk.V2.Crypto.{Ciphers, decode_decrypt}
use play_cpp_sdk.V2.Context.{Serde, Error, World}
use play_cpp_sdk.V2.Handlers.{
  handle_session_proposal_response, handle_session_settle_request, handle_session_event_request,
  handle_session_delete_request, handle_session_update_request, handle_session_extend_request,
  handle_session_ping_request, handle_normal_rpc_response,
}
use play_cpp_sdk.V2.Handlers.Settled.{
  IsSettled, settle_kept, event_kept, delete_kept, update_kept, extend_kept, ping_kept, normal_kept,
  proposal_kept,
}
use play_cpp_sdk.V2.Dispatch.{
  ignored, with_plain, handle_method, handle_named, on_pairing, handle_paired, handle_proposal,
  message_received,
}

-- The state after a run is settled.
unfoldable Kept : World × Result Error (Unit {0}) → Type 0
Kept r = IsSettled r.0.session

ignored-Kept : (r : World × Result Error (Unit {0})) → Kept r → Kept (ignored r)
unfolding Kept
ignored-Kept (w, ok a) settled = settled
ignored-Kept (w, err e) settled = settled
ignored-Kept (w, panic) settled = settled

-- A handler that keeps the session keeps it settled.
same-Kept :
    (w : World) (r : World × Result Error (Unit {0}))
    → r.0.session ≡ w.session
    → IsSettled w.session
    → Kept (ignored r)
unfolding Kept
same-Kept w r same settled = ignored-Kept r (subst IsSettled (sym same) settled)

done-Kept : (r : World × Result Error (Unit {0})) → IsSettled r.0.session → Kept (ignored r)
unfolding Kept
done-Kept r settled = ignored-Kept r settled

-- Either branch of a test keeps it.
branch-Kept :
    (b : Bool) (r s : World × Result Error (Unit {0})) → Kept r → Kept s → Kept (if b then r else s)
branch-Kept true r s first second = first
branch-Kept false r s first second = second

with_plain-Kept :
    (d : Result (Unit {0}) Bytes) (f : Bytes → M World Error (Unit {0})) (w : World)
    → IsSettled w.session
    → ((plain : Bytes) → Kept (f plain w))
    → Kept (with_plain d f w)
unfolding Kept
with_plain-Kept (ok plain) f w settled kept = kept plain
with_plain-Kept (err e) f w settled kept = settled
with_plain-Kept panic f w settled kept = settled

end-Kept : (w : World) (r : Result Error (Unit {0})) → IsSettled w.session → Kept (w, r)
unfolding Kept
end-Kept w r settled = settled

module _ (serde : Serde) (ciphers : Ciphers) (hex : Hex) (nonce : Bytes) (has_callback : Bool) where
  method-Kept :
      (method : Text) (plain : Bytes) (w : World)
      → IsSettled w.session
      → Kept (handle_method serde ciphers hex nonce has_callback method plain w)
  unfolding handle_method
  method-Kept method plain w settled =
      let events =
        branch-Kept (text_eq method (codes "wc_sessionEvent")) _ _
          (same-Kept w (handle_session_event_request serde ciphers hex nonce plain has_callback w)
            (event_kept serde ciphers hex nonce plain has_callback w) settled)
          (end-Kept w (ok tt) settled) in
      let deletes =
        branch-Kept (text_eq method (codes "wc_sessionDelete")) _ _
          (done-Kept (handle_session_delete_request serde ciphers hex nonce plain has_callback w)
            (delete_kept serde ciphers hex nonce plain has_callback w settled))
          events in
      let pings =
        branch-Kept (text_eq method (codes "wc_sessionPing")) _ _
          (same-Kept w (handle_session_ping_request serde ciphers hex nonce plain has_callback w)
            (ping_kept serde ciphers hex nonce plain has_callback w) settled)
          deletes in
      let extends =
        branch-Kept (text_eq method (codes "wc_sessionExtend")) _ _
          (same-Kept w (handle_session_extend_request serde ciphers hex nonce plain has_callback w)
            (extend_kept serde ciphers hex nonce plain has_callback w) settled)
          pings in
      let updates =
        branch-Kept (text_eq method (codes "wc_sessionUpdate")) _ _
          (done-Kept (handle_session_update_request serde ciphers hex nonce plain has_callback w)
            (update_kept serde ciphers hex nonce plain has_callback w settled))
          extends in
      branch-Kept (text_eq method (codes "wc_sessionSettle")) _ _
        (done-Kept (handle_session_settle_request serde ciphers hex nonce plain w)
          (settle_kept serde ciphers hex nonce plain w settled))
        updates

  paired-Kept :
      (plain : Bytes) (w : World)
      → IsSettled w.session
      → Kept (handle_paired serde ciphers hex nonce has_callback plain w)
  unfolding handle_paired
  paired-Kept plain w settled = read (serde.read_json plain)
    where
      named : (m : Option Text) → Kept (handle_named serde ciphers hex nonce has_callback m plain w)
      named none = end-Kept w (ok tt) settled
      named (some m) = method-Kept m plain w settled

      chosen :
          (m : Option Value)
          → Kept (elim m [
            | some v ↦ handle_named serde ciphers hex nonce has_callback (serde.as_str v) plain w
            | none ↦ ignored (handle_normal_rpc_response serde ciphers hex plain w)
          ])
      chosen (some v) = named (serde.as_str v)
      chosen none =
          same-Kept w (handle_normal_rpc_response serde ciphers hex plain w)
            (normal_kept serde ciphers hex plain w) settled

      read :
          (j : Option Value)
          → Kept (elim j [
            | none ↦ (w, panic)
            | some plainjson ↦ elim (serde.get_method plainjson) [
              | some v ↦ handle_named serde ciphers hex nonce has_callback (serde.as_str v) plain w
              | none ↦ ignored (handle_normal_rpc_response serde ciphers hex plain w)
            ]
          ])
      read none = end-Kept w panic settled
      read (some plainjson) = chosen (serde.get_method plainjson)

  dispatch-Kept :
      (topic : Topic) (message : Text) (w : World)
      → IsSettled w.session
      → Kept (message_received serde ciphers hex nonce has_callback topic message w)
  unfolding message_received on_pairing handle_proposal
  dispatch-Kept topic message w settled =
      let proposed =
        with_plain-Kept (decode_decrypt ciphers w.session.session_proposal_symkey message)
          (handle_proposal serde ciphers hex nonce has_callback) w settled
          (λ plain.
            done-Kept (handle_session_proposal_response serde ciphers hex plain w)
              (proposal_kept serde ciphers hex plain w settled)) in
      branch-Kept (text_eq topic w.session.session_proposal_topic) _ _ proposed
        (paired w.session.pairing_topic_symkey)
    where
      paired :
          (p : Option (Topic × Key))
          → Kept (on_pairing serde ciphers hex nonce has_callback topic message p w)
      paired none = end-Kept w (ok tt) settled
      paired (some (t, key)) =
          branch-Kept (text_eq topic t)
            (with_plain (decode_decrypt ciphers key message)
              (handle_paired serde ciphers hex nonce has_callback) w)
            (w, ok tt)
            (with_plain-Kept (decode_decrypt ciphers key message)
              (handle_paired serde ciphers hex nonce has_callback) w settled
              (λ plain. paired-Kept plain w settled))
            (end-Kept w (ok tt) settled)

  -- Whatever message arrives on whatever topic, and whether its task ends or panics: if a connected
  -- session had the wallet's namespaces and metadata before, it has them afterwards.
  pub message_received-IsSettled :
      (topic : Topic) (message : Text) (w : World)
      → IsSettled w.session
      → IsSettled (message_received serde ciphers hex nonce has_callback topic message w).0.session
  unfolding Kept
  message_received-IsSettled topic message w settled = dispatch-Kept topic message w settled

  -- A message on a topic that is neither the proposal's nor the pairing's changes nothing.
  pub message_received_stranger :
      (topic : Topic) (message : Text) (t : Topic) (key : Key) (w : World)
      → w.session.pairing_topic_symkey ≡ some (t, key)
      → topic ≢ w.session.session_proposal_topic
      → topic ≢ t
      → message_received serde ciphers hex nonce has_callback topic message w ≡ (w, ok tt)
  unfolding message_received on_pairing
  message_received_stranger topic message t key w paired other_proposal other_pairing =
      let p = text_eq_iff topic w.session.session_proposal_topic in
      let q = text_eq_iff topic t in ground arith

  -- A message on the pairing's topic, which is not that of the proposal, that decrypts but is no
  -- JSON panics in its task, and leaves the state as it is.
  pub message_received_panics :
      (topic : Topic) (message : Text) (key : Key) (plain : Bytes) (w : World)
      → w.session.pairing_topic_symkey ≡ some (topic, key)
      → topic ≢ w.session.session_proposal_topic
      → decode_decrypt ciphers key message ≡ ok plain
      → serde.read_json plain ≡ none
      → message_received serde ciphers hex nonce has_callback topic message w ≡ (w, panic)
  unfolding message_received on_pairing handle_paired
  message_received_panics topic message key plain w paired other decrypts unread =
      let p = text_eq_iff topic w.session.session_proposal_topic in
      let q = text_eq_iff topic topic in ground arith
