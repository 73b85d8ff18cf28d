-- ===== src/V1/Session/Events.antt =====
-- What a session reports, and what no message of the wallet changes in it.
use play_cpp_sdk.Prelude.{ℕ, ◌≡◌, refl, true, some, [], ◌∷◌, ◌++◌, arith, if◌then◌else◌, unwrap_or}
use play_cpp_sdk.V1.Protocol.{SessionParams, SessionUpdate}
use play_cpp_sdk.V1.Session.{
  SessionInfo, Session, Callbacks, connected, updated, disconnected, apply, update,
}

-- The parts of a session that its connection rests on.
pub record SameIdentity (i j : SessionInfo) : Type 0 where
  pub bridge_same : i.bridge ≡ j.bridge
  pub key_same : i.key ≡ j.key
  pub client_same : i.client_id ≡ j.client_id
  pub meta_same : i.client_meta ≡ j.client_meta
  pub topic_same : i.handshake_topic ≡ j.handshake_topic

-- The answer to a session request sets the session's status, accounts, chain and peer, keeps its
-- identity, and is reported as `Connected` with the session that it leaves, if there is a callback
-- channel with a receiver.
pub apply_reports :
    (s : Session) (params : SessionParams) (cbs : Callbacks) (ch : ℕ)
    → s.callback_channel ≡ some ch
    → cbs.is_open ch ≡ true
    → let s' = (apply s params cbs).0 in
      (cbs' : Callbacks) × ((apply s params cbs).1 ≡ some cbs')
      × (cbs'.sent ≡ cbs.sent ++ (ch, record { state = connected; session = some s'.info }) ∷ [])
      × (s'.info.connected ≡ params.approved)
      × (s'.info.accounts ≡ params.accounts)
      × (s'.info.chain_id ≡ some params.chain_id)
      × (s'.info.peer_id ≡ some params.peer_id)
      × (s'.info.peer_meta ≡ some params.peer_meta)
      × SameIdentity s'.info s.info
unfolding apply
apply_reports s params cbs ch has opened = (
  record cbs {
    sent =
        cbs.sent
        ++ (ch, record { state = connected; session = some (apply s params cbs).0.info }) ∷ [];
  },
  ground arith,
  refl,
  refl,
  refl,
  refl,
  refl,
  refl,
  record {
    bridge_same = refl;
    key_same = refl;
    client_same = refl;
    meta_same = refl;
    topic_same = refl;
  },
)

-- With a callback channel that has a receiver, a session update is reported with the session that
-- it leaves: as `Updated` if the wallet still approves, and else as `Disconnected`. Missing
-- accounts become none, and the peer and the identity of the session stay.
pub update_reports :
    (s : Session) (up : SessionUpdate) (cbs : Callbacks) (ch : ℕ)
    → s.callback_channel ≡ some ch
    → cbs.is_open ch ≡ true
    → let s' = (update s up cbs).0 in
      let state = (if up.approved then updated else disconnected) in
      (cbs' : Callbacks) × ((update s up cbs).1 ≡ some cbs')
      × (cbs'.sent ≡ cbs.sent ++ (ch, record { state = state; session = some s'.info }) ∷ [])
      × (s'.info.connected ≡ up.approved)
      × (s'.info.accounts ≡ unwrap_or up.accounts [])
      × (s'.info.chain_id ≡ up.chain_id)
      × (s'.info.peer_id ≡ s.info.peer_id)
      × SameIdentity s'.info s.info
unfolding update
update_reports s up cbs ch has opened = (
  record cbs {
    sent =
        cbs.sent
        ++ (
          ch,
          record {
            state = if up.approved then updated else disconnected;
            session = some (update s up cbs).0.info;
          },
        )
          ∷ [];
  },
  ground arith,
  refl,
  refl,
  refl,
  refl,
  refl,
  record {
    bridge_same = refl;
    key_same = refl;
    client_same = refl;
    meta_same = refl;
    topic_same = refl;
  },
)
