-- ===== src/Bindings/Callbacks/Reports.antt =====
-- What C++ is told of a session.
use play_cpp_sdk.Prelude.{
  ℕ, ◌<◌, ◌≡◌, ◌≢◌, refl, sym, ap, ◌∙◌, true, Option, none, some, List, [], ◌∷◌, ◌++◌, arith,
  is_some, drop, Option-cases, inl, inr, map,
}
use mathlib.Core.Option
use play_cpp_sdk.Prelude.Text.{Text, Bytes, codes}
use play_cpp_sdk.Rust.Decimal.{u64_mod, to_text, parse_u64, parse_u64-to_text, parse_u64-empty}
use play_cpp_sdk.Hex.{Hex, IsLossless, IsBytes}
use play_cpp_sdk.V1.Protocol.{PeerMetadata}
use play_cpp_sdk.V1.Session.{
  SessionInfo, ClientChannelMessage, ClientChannelMessageType, connecting, connected, updated,
  disconnected,
}
use play_cpp_sdk.V1.Client.Dispatch.{run_callback}
use play_cpp_sdk.V1.Client.Reports.{report}
use play_cpp_sdk.Bindings.Callbacks.{
  WalletConnectSessionInfo, Texts, CppCall, call_of, convert_session_info, on_message, calls,
  setup_callback, chain_id_text, peer_id_text, peer_meta_text, on_connected, on_disconnected,
  on_connecting, on_updated,
}

-- A chain id that is a `u64`.
abbrev pub FitsId : Option ℕ → Type 0
FitsId none = Unit
FitsId (some id) = id < u64_mod

to_text-injective : (m n : ℕ) → m < u64_mod → n < u64_mod → to_text m ≡ to_text n → m ≡ n
to_text-injective m n hm hn e =
    let a = parse_u64-to_text m hm in
    let b = parse_u64-to_text n hn in let c = ap parse_u64 e in ground arith

to_text-nonempty : (n : ℕ) → n < u64_mod → to_text n ≢ []
to_text-nonempty n h e =
    let a = parse_u64-to_text n h in
    let b = ap parse_u64 e in let c = parse_u64-empty in ground arith

chain_id_text-injective :
    (a b : Option ℕ) → FitsId a → FitsId b → chain_id_text a ≡ chain_id_text b → a ≡ b
chain_id_text-injective none none ha hb e = refl
chain_id_text-injective none (some n) ha hb e = absurd (to_text-nonempty n hb (sym e))
chain_id_text-injective (some m) none ha hb e = absurd (to_text-nonempty m ha e)
chain_id_text-injective (some m) (some n) ha hb e = ap some (to_text-injective m n ha hb e)

-- The messages of a session's events, as they are sent.
abbrev pub sent : List (ClientChannelMessageType × SessionInfo) → List (Option ClientChannelMessage)
sent [] = []
sent ((state, info) ∷ rest) = some (report state info) ∷ sent rest

-- A text for an optional field: empty if there is nothing, and else what is written of it.
pub data Shown {A : Type 0} (write : A → Option Text) : Option A → Text → Type 0 where
  absent : Shown write none []
  present : (a : A) (text : Text) → write a ≡ some text → Shown write (some a) text

chain_id-Shown :
    (id : Option ℕ) (text : Text) → Shown (λ n. some (to_text n)) id text → chain_id_text id ≡ text
chain_id-Shown none text absent = refl
chain_id-Shown (some n) text (present k t e) = ground arith

peer_id-Shown : (id : Option Text) (text : Text) → Shown some id text → peer_id_text id ≡ text
peer_id-Shown none text absent = refl
peer_id-Shown (some n) text (present k t e) = ground arith

peer_meta-Shown :
    (texts : Texts) (meta : Option PeerMetadata) (text : Text)
    → Shown texts.write_peer_metadata meta text
    → peer_meta_text texts meta ≡ some text
peer_meta-Shown texts none text absent = refl
peer_meta-Shown texts (some m) text (present k t e) = e

-- Each kind of event has its own method.
pub data Calls (cpp : WalletConnectSessionInfo) : ClientChannelMessageType → CppCall → Type 0 where
  calls_connected : Calls cpp connected (on_connected cpp)
  calls_disconnected : Calls cpp disconnected (on_disconnected cpp)
  calls_connecting : Calls cpp connecting (on_connecting cpp)
  calls_updated : Calls cpp updated (on_updated cpp)

call_of-Calls :
    (cpp : WalletConnectSessionInfo) (state : ClientChannelMessageType) (call : CppCall)
    → Calls cpp state call
    → call_of state cpp ≡ call
call_of-Calls cpp connected call calls_connected = refl
call_of-Calls cpp disconnected call calls_disconnected = refl
call_of-Calls cpp connecting call calls_connecting = refl
call_of-Calls cpp updated call calls_updated = refl

module _ (h : Hex) (texts : Texts) where
  encode-injective :
      IsLossless h
      → (a b : Bytes) → IsBytes a
      → IsBytes b
      → h.encode_crate a ≡ h.encode_crate b
      → a ≡ b
  encode-injective l a b ha hb e =
      let back_a = l.decode-encode a ha in
      let back_b = l.decode-encode b hb in let c = ap h.decode_crate e in ground arith

  converted_fields :
      (info : SessionInfo) (cpp : WalletConnectSessionInfo)
      → convert_session_info h texts info ≡ some cpp
      → (info.connected ≡ cpp.connected)
        × (chain_id_text info.chain_id ≡ cpp.chainid)
        × (info.bridge ≡ cpp.bridge)
        × (codes "0x" ++ h.encode_crate info.key.raw ≡ cpp.key)
        × (info.client_id ≡ cpp.clientid)
        × (info.handshake_topic ≡ cpp.handshaketopic)
  unfolding convert_session_info
  converted_fields info cpp done = elim (Option-cases (texts.write_metadata info.client_meta)) [
    | inl bad ↦ absurd (ground arith)
    | inr (clientmeta, e1) ↦ elim (Option-cases (peer_meta_text texts info.peer_meta)) [
      | inl bad ↦ absurd (ground arith)
      | inr (peermeta, e2) ↦
          (ground arith, ground arith, ground arith, ground arith, ground arith, ground arith)
    ]
  ]

  -- What C++ reads of a session: the texts of its fields, those of the optional ones empty where there is
  -- nothing, and the key and the accounts in hexadecimal digits.
  pub record Shows (info : SessionInfo) (cpp : WalletConnectSessionInfo) : Type 0 where
    pub chainid : Shown (λ id. some (to_text id)) info.chain_id cpp.chainid
    pub connected : cpp.connected ≡ info.connected
    pub accounts : cpp.accounts ≡ map texts.print_address info.accounts
    pub bridge : cpp.bridge ≡ info.bridge
    pub key : cpp.key ≡ codes "0x" ++ h.encode_crate info.key.raw
    pub clientid : cpp.clientid ≡ info.client_id
    pub clientmeta : texts.write_metadata info.client_meta ≡ some cpp.clientmeta
    pub peerid : Shown some info.peer_id cpp.peerid
    pub peermeta : Shown texts.write_peer_metadata info.peer_meta cpp.peermeta
    pub handshaketopic : cpp.handshaketopic ≡ info.handshake_topic

  convert_session_info-Shows :
      (info : SessionInfo) (cpp : WalletConnectSessionInfo)
      → Shows info cpp
      → convert_session_info h texts info ≡ some cpp
  unfolding convert_session_info
  convert_session_info-Shows info cpp s =
      let chain = chain_id-Shown info.chain_id cpp.chainid s.chainid in
      let peer = peer_id-Shown info.peer_id cpp.peerid s.peerid in
      let meta = peer_meta-Shown texts info.peer_meta cpp.peermeta s.peermeta in
      rw
        (
          convert_session_info,
          s.clientmeta,
          meta,
          chain,
          peer,
          sym s.connected,
          sym s.accounts,
          sym s.bridge,
          sym s.key,
          sym s.clientid,
          sym s.handshaketopic,
        )
        refl

  -- The same events behind each other in C++: each calls the method that is named after its kind, with an
  -- object that shows its session.
  pub data Told : List (ClientChannelMessageType × SessionInfo) → List CppCall → Type 0 where
    told_none : Told [] []
    told :
        {state : ClientChannelMessageType} {info : SessionInfo} (cpp : WalletConnectSessionInfo)
        (call : CppCall) {events : List (ClientChannelMessageType × SessionInfo)}
        (cs : List CppCall)
        → Shows info cpp
        → Calls cpp state call
        → Told events cs
        → Told ((state, info) ∷ events) (call ∷ cs)

  on_message-report :
      (state : ClientChannelMessageType) (info : SessionInfo) (cpp : WalletConnectSessionInfo)
      (call : CppCall)
      → Shows info cpp
      → Calls cpp state call
      → on_message h texts (report state info) ≡ some call
  unfolding on_message convert_session_info
  on_message-report state info cpp call s c =
      ap (Option.map (call_of state)) (convert_session_info-Shows info cpp s)
      ∙ ap some (call_of-Calls cpp state call c)

  abbrev reports : List (ClientChannelMessageType × SessionInfo) → List ClientChannelMessage
  reports [] = []
  reports ((state, info) ∷ rest) = report state info ∷ reports rest

  calls-reports :
      (events : List (ClientChannelMessageType × SessionInfo)) (cs : List CppCall)
      → Told events cs
      → calls h texts (reports events) ≡ cs
  unfolding calls
  calls-reports [] cs told_none = refl
  calls-reports ((state, info) ∷ events) cs (told cpp call rest e c t) =
      let made = on_message-report state info cpp call e c in
      let later = calls-reports events rest t in ground arith

  run-reports :
      (events : List (ClientChannelMessageType × SessionInfo)) (cs : List CppCall)
      → Told events cs
      → run_callback (λ m. is_some (on_message h texts m)) (sent events) ≡ (true, reports events)
  unfolding run_callback
  run-reports [] cs told_none = refl
  run-reports ((state, info) ∷ events) cs (told cpp call rest e c t) =
      let made = on_message-report state info cpp call e c in
      let later = run-reports events rest t in ground arith

  -- The callback's task makes one call for each event of a session that is sent, in their order, of the
  -- method that is named after the event's kind and with an object that shows each field of the event's
  -- session, and goes on; every session has metadata that are written.
  pub setup_callback-Told :
      (events : List (ClientChannelMessageType × SessionInfo)) (cs : List CppCall)
      → Told events cs
      → setup_callback h texts (sent events) ≡ (true, cs)
  unfolding setup_callback
  setup_callback-Told events cs t =
      let ran = run-reports events cs t in let made = calls-reports events cs t in ground arith

  -- Two sessions that C++ cannot tell apart agree in what identifies them: whether they are connected, the
  -- chain id, the bridge, the key, the client's id and the handshake topic. Their chain ids are
  -- `u64`s, and their keys bytes.
  pub convert_session_info-injective :
      (a b : SessionInfo) (cpp : WalletConnectSessionInfo)
      → IsLossless h
      → IsBytes a.key.raw
      → IsBytes b.key.raw
      → FitsId a.chain_id
      → FitsId b.chain_id
      → convert_session_info h texts a ≡ some cpp
      → convert_session_info h texts b ≡ some cpp
      → (a.connected ≡ b.connected)
        × (a.chain_id ≡ b.chain_id)
        × (a.bridge ≡ b.bridge)
        × (a.key.raw ≡ b.key.raw)
        × (a.client_id ≡ b.client_id)
        × (a.handshake_topic ≡ b.handshake_topic)
  convert_session_info-injective a b cpp lossless key_a key_b id_a id_b of_a of_b =
      let (con_a, chain_a, bridge_a, raw_a, client_a, topic_a) = converted_fields a cpp of_a in
      let (con_b, chain_b, bridge_b, raw_b, client_b, topic_b) = converted_fields b cpp of_b in
      let same_id = chain_id_text-injective a.chain_id b.chain_id id_a id_b (ground arith) in
      let same_key =
        encode-injective lossless a.key.raw b.key.raw key_a key_b
          (ap (drop 2) (raw_a ∙ sym raw_b)) in
      (ground arith, same_id, ground arith, same_key, ground arith, ground arith)
