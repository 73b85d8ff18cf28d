-- ===== src/V1/Connector/Sessions.antt =====
-- What sessions a connector makes and hands out.
use play_cpp_sdk.Prelude.{
  ℕ, ◌-◌, ◌<◌, ◌^◌, ◌≡◌, ◌≢◌, ◌⊎◌, inl, inr, Bool, true, false, none, some, List, [], ◌∷◌, arith,
  unwrap_or, Bool-cases,
}
use play_cpp_sdk.Prelude.Text.{Text, Bytes, text_eq_iff, codes}
use play_cpp_sdk.Rust.Effect.{ok, err, M, continue, continue-eq-ok}
use play_cpp_sdk.V1.Protocol.{Url, Address, subscribe}
use play_cpp_sdk.V1.Crypto.{Ciphers}
use play_cpp_sdk.V1.Uri.{Urls}
use play_cpp_sdk.V1.Session.{SessionInfo, Callbacks}
use play_cpp_sdk.V1.Context.{Serde, Error, bad_scheme, World, enqueue}
use play_cpp_sdk.V1.Socket.{Await}
use play_cpp_sdk.V1.Handshake.{create_session}
use play_cpp_sdk.V1.Handshake.Outcomes.{create_session_hands_out}
use play_cpp_sdk.V1.Connector.{
  get_safe_random, socket_url, notify_connecting, restore, ensure_session,
}

-- A request id is never zero, and stays below the largest integer that JavaScript holds exactly.
pub get_safe_random_range :
    (random : ℕ) → (0 < get_safe_random random) × (get_safe_random random < 2 ^ 53 - 1)
unfolding get_safe_random
get_safe_random_range random = (omega arith, omega arith)

-- `set_scheme` changes the scheme to the one that is asked for.
abbrev pub SetsScheme : Urls → Type 0
SetsScheme u = (url url' : Url) (s : Text) → u.set_scheme url s ≡ some url' → u.scheme url' ≡ s

-- If `set_scheme` sets the scheme, the websocket of a connector is opened under `ws` or `wss`:
-- `http` becomes the first and `https` the second, and the two themselves stay.
pub socket_url_scheme :
    (u : Urls) (url url' : Url)
    → SetsScheme u
    → socket_url u url ≡ ok url'
    → ((u.scheme url' ≡ codes "ws") × ((u.scheme url ≡ codes "http") ⊎ (u.scheme url ≡ codes "ws")))
      ⊎ ((u.scheme url' ≡ codes "wss")
          × ((u.scheme url ≡ codes "https") ⊎ (u.scheme url ≡ codes "wss")))
unfolding socket_url
socket_url_scheme u url url' sets e =
    let http = text_eq_iff (u.scheme url) (codes "http") in
    let https = text_eq_iff (u.scheme url) (codes "https") in
    let ws = text_eq_iff (u.scheme url) (codes "ws") in
    let wss = text_eq_iff (u.scheme url) (codes "wss") in
    let to_ws = sets url url' (codes "ws") in
    let to_wss = sets url url' (codes "wss") in ground arith

-- A bridge of any other scheme is refused, and its scheme is named.
pub socket_url_refuses :
    (u : Urls) (url : Url)
    → u.scheme url ≢ codes "http"
    → u.scheme url ≢ codes "https"
    → u.scheme url ≢ codes "ws"
    → u.scheme url ≢ codes "wss"
    → socket_url u url ≡ err (bad_scheme (u.scheme url))
unfolding socket_url
socket_url_refuses u url a b c d =
    let http = text_eq_iff (u.scheme url) (codes "http") in
    let https = text_eq_iff (u.scheme url) (codes "https") in
    let ws = text_eq_iff (u.scheme url) (codes "ws") in
    let wss = text_eq_iff (u.scheme url) (codes "wss") in ground arith

-- A restored client whose bridge has a good scheme, whose websocket opens and whose subscriptions
-- serialise subscribes to its own topic, and then to the topic of its handshake; its session is
-- the one that was stored, and no request is pending.
pub restore_subscribes :
    (serde : Serde) (ciphers : Ciphers) (u : Urls) (connects : Url → Bool) (info : SessionInfo)
    (callbacks : Callbacks) (url : Url) (own handshake : Bytes)
    → socket_url u info.bridge ≡ ok url
    → connects url ≡ true
    → serde.write_socket_message
        (record { topic = info.client_id; kind = subscribe; payload = none; silent = true })
      ≡ some own
    → serde.write_socket_message
        (record { topic = info.handshake_topic; kind = subscribe; payload = none; silent = true })
      ≡ some handshake
    → let r = restore serde ciphers u connects info callbacks in
      (r.1 ≡ ok tt)
      × (r.0.queue ≡ (none, own) ∷ (none, handshake) ∷ [])
      × (r.0.session.info ≡ info)
      × (r.0.pending_requests ≡ [])
      × (r.0.session_pending ≡ false)
unfolding restore enqueue
restore_subscribes serde ciphers u connects info callbacks url own handshake e c a b =
    (ground arith, ground arith, ground arith, ground arith, ground arith)

-- Whether the session was there or is made now: what `ensure_session` hands out are the accounts and
-- the chain of the session that it leaves, with chain 0 where the session has none.
pub ensure_session_ok :
    (serde : Serde) (ciphers : Ciphers) (await : Await) (iv : Bytes) (random : ℕ) (w w' : World)
    (accounts : List Address) (chain : ℕ)
    → ensure_session serde ciphers await iv random w ≡ (w', ok (accounts, chain))
    → (accounts ≡ w'.session.info.accounts) × (chain ≡ unwrap_or w'.session.info.chain_id 0)
unfolding ensure_session
ensure_session_ok serde ciphers await iv random w w' accounts chain e =
    elim (Bool-cases w.session.info.connected) [
      | inl there ↦ ground arith
      | inr absent ↦
          let chained : continue (notify_connecting serde ciphers w) (λ _. create)
              ≡ (w', ok (accounts, chain)) =
            ground arith in
          let (w1, _, n, rest) = continue-eq-ok (notify_connecting serde ciphers w) _ chained in
          create_session_hands_out serde ciphers await iv (get_safe_random random) w1 w' accounts
            chain rest
    ]
  where
    create : M World Error (List Address × ℕ)
    create = create_session serde ciphers await iv (get_safe_random random)
