-- ===== src/V2/Tasks/Whole.antt =====
-- A message that is handled as a whole is its task's steps, with nothing between them.
use play_cpp_sdk.Prelude.{
  ◌≡◌, refl, sym, Bool, true, false, Option, none, some, List, [], if◌then◌else◌,
}
use play_cpp_sdk.Prelude.Text.{Text, Bytes, text_eq}
use play_cpp_sdk.Rust.Effect.{M, Result, ok, err, panic}
use play_cpp_sdk.Hex.{Hex}
use play_cpp_sdk.V1.Protocol.{Value, Topic}
use play_cpp_sdk.V1.Crypto.{Key}
use play_cpp_sdk.V2.Crypto.{Ciphers, decode_decrypt}
use play_cpp_sdk.V2.Context.{Serde, Error, World}
use play_cpp_sdk.V2.Handlers.{handle_normal_rpc_response}
use play_cpp_sdk.V2.Dispatch.{
  ignored, with_plain, handle_named, on_pairing, handle_paired, handle_proposal, message_received,
}
use play_cpp_sdk.V2.Tasks.Handlers.{response-Whole, proposal-Whole, method-Whole}
use play_cpp_sdk.V2.Tasks.{
  Action, run, response_actions, named_actions, paired_actions, if_plain, pairing_actions,
  message_actions,
}

module _ (serde : Serde) (ciphers : Ciphers) (hex : Hex) (has_callback : Bool) (nonce : Bytes) where
  -- What a task does on its own after its first step.
  abbrev pub alone : Option (List Action) → M World Error (Unit {0})
  alone none w = (w, panic)
  alone (some actions) w = ignored (run serde ciphers hex has_callback nonce actions w)

  paired_whole :
      (plain : Bytes) (w : World)
      → alone (paired_actions serde plain) w
        ≡ handle_paired serde ciphers hex nonce has_callback plain w
  unfolding paired_actions handle_paired run
  paired_whole plain w = read (serde.read_json plain)
    where
      named :
          (m : Option Text)
          → ignored (run serde ciphers hex has_callback nonce (named_actions serde m plain) w)
            ≡ handle_named serde ciphers hex nonce has_callback m plain w
      named none = refl
      named (some m) = method-Whole serde ciphers hex has_callback nonce m plain w

      chosen :
          (m : Option Value)
          → alone
              (elim m [
                | some v ↦ some (named_actions serde (serde.as_str v) plain)
                | none ↦ some (response_actions serde (serde.read_response plain))
              ])
              w
            ≡ elim m [
              | some v ↦ handle_named serde ciphers hex nonce has_callback (serde.as_str v) plain w
              | none ↦ ignored (handle_normal_rpc_response serde ciphers hex plain w)
            ]
      chosen none = response-Whole serde ciphers hex has_callback nonce plain w
      chosen (some v) = named (serde.as_str v)

      read :
          (j : Option Value)
          → alone
              (elim j [
                | none ↦ none
                | some plainjson ↦ elim (serde.get_method plainjson) [
                  | some v ↦ some (named_actions serde (serde.as_str v) plain)
                  | none ↦ some (response_actions serde (serde.read_response plain))
                ]
              ])
              w
            ≡ elim j [
              | none ↦ (w, panic)
              | some plainjson ↦ elim (serde.get_method plainjson) [
                | some v ↦
                    handle_named serde ciphers hex nonce has_callback (serde.as_str v) plain w
                | none ↦ ignored (handle_normal_rpc_response serde ciphers hex plain w)
              ]
            ]
      read none = refl
      read (some plainjson) = chosen (serde.get_method plainjson)

  plain_whole :
      (d : Result (Unit {0}) Bytes) (f : Bytes → Option (List Action))
      (g : Bytes → M World Error (Unit {0})) (w : World)
      → ((plain : Bytes) → alone (f plain) w ≡ g plain w)
      → alone (if_plain d f) w ≡ with_plain d g w
  unfolding run
  plain_whole (ok plain) f g w h = h plain
  plain_whole (err e) f g w h = refl
  plain_whole panic f g w h = refl

  pick_whole :
      (b : Bool) (xs ys : Option (List Action)) (w : World) (r s : World × Result Error (Unit {0}))
      → alone xs w ≡ r
      → alone ys w ≡ s
      → alone (if b then xs else ys) w ≡ (if b then r else s)
  pick_whole true xs ys w r s first second = first
  pick_whole false xs ys w r s first second = second

  pairing_whole :
      (topic : Topic) (message : Text) (p : Option (Topic × Key)) (w : World)
      → alone (pairing_actions serde ciphers topic message p) w
        ≡ on_pairing serde ciphers hex nonce has_callback topic message p w
  unfolding pairing_actions on_pairing run
  pairing_whole topic message none w = refl
  pairing_whole topic message (some (t, key)) w =
      pick_whole (text_eq topic t) _ (some []) w _ (w, ok tt)
        (plain_whole (decode_decrypt ciphers key message) _ _ w (λ plain. paired_whole plain w))
        refl

  -- The handler of a message is its task: the first step finds the actions under the lock, and the
  -- task panics there or makes them one after the other, up to the first that fails; an error is
  -- dropped, and a panic is not.
  pub message_received-run :
      (topic : Topic) (message : Text) (w : World)
      → message_received serde ciphers hex nonce has_callback topic message w
        ≡ alone (message_actions serde ciphers topic message w.session) w
  unfolding message_received message_actions handle_proposal
  message_received-run topic message w = sym (
      pick_whole (text_eq topic w.session.session_proposal_topic) _ _ w _ _
        (plain_whole (decode_decrypt ciphers w.session.session_proposal_symkey message) _ _ w
          (λ plain. proposal-Whole serde ciphers hex has_callback nonce plain w))
        (pairing_whole topic message w.session.pairing_topic_symkey w))
