-- ===== src/V2/Interleaving/Owned.antt =====
-- The channel of one request of WalletConnect 2.0, through each access to the state that the tasks share.
use play_cpp_sdk.Prelude.{
  ℕ, ◌<◌, ◌≡◌, ◌∙◌, ◌⊎◌, inl, inr, Bool, some, arith, Option-cases, unwrap_or, ap,
}
use play_cpp_sdk.Prelude.Text.{Bytes}
use play_cpp_sdk.Prelude.Assoc.{lookup, lookup-erase}
use play_cpp_sdk.Hex.{Hex}
use play_cpp_sdk.V1.Protocol.{Value, Response, into_value}
use play_cpp_sdk.V2.Crypto.{Ciphers}
use play_cpp_sdk.V2.Context.{
  Serde, World, Oneshot, sent, dropped, register, take_pending, set_oneshot,
}
use play_cpp_sdk.V2.Context.Pending.{Same, IsLinked, register_pending, register_other}
use play_cpp_sdk.V2.Tasks.{
  Action, acknowledges, tells, pairs, answers, settles, updates, extends, deletes, resolves, act,
  resolve,
}
use play_cpp_sdk.V2.Interleaving.Channels.{act-Same, IsQuiet-cases}

-- No other request has the channel, and it was opened.
pub record IsOwned (id ch : ℕ) (w : World) : Type 0 where
  pub opened : ch < w.next_oneshot
  pub only : (j : ℕ) → lookup j w.pending_requests ≡ some ch → j ≡ id

pub linked-IsOwned :
    (id ch : ℕ) (w : World) → IsLinked w → lookup id w.pending_requests ≡ some ch → IsOwned id ch w
linked-IsOwned id ch w l there = record {
  opened = (l.unused id ch there).0;
  only = λ j e. l.own j id ch e there;
}

-- What an access may do to the channel: it stays the request's own, and gets a value only if the access
-- may send it.
abbrev pub Sends : (id ch : ℕ) (v : Value) (May : Type 0) → World → World → Type 0
Sends id ch v May w w' =
    IsOwned id ch w' × (w'.oneshots ch ≡ sent v → (w.oneshots ch ≡ sent v) ⊎ May)

pub Same-Sends :
    (id ch : ℕ) (v : Value) (May : Type 0) (w w' : World)
    → IsOwned id ch w
    → Same w w'
    → Sends id ch v May w w'
Same-Sends id ch v May w w' o s = (
  record { opened = rw s.next o.opened; only = λ j. rw s.pending (o.only j) },
  λ e. inl (rw s.oneshots at e),
)

pub register-Sends :
    (id ch j : ℕ) (v : Value) (May : Type 0) (w : World)
    → IsOwned id ch w
    → Sends id ch v May w (register j w)
unfolding register
register-Sends id ch j v May w o = (
  record {
    opened = ground (arith, o.opened);
    only = λ i e. ground (arith, register_pending j i w, o.only i, o.opened);
  },
  λ e. inl (ground (arith, register_other j ch w, o.opened)),
)

-- A sender that is taken from the map sends on the channel of its own id only.
pub take_pending-Sends :
    (id ch j : ℕ) (state : Oneshot) (v : Value) (w : World)
    → IsOwned id ch w
    → Sends id ch v ((j ≡ id) × (state ≡ sent v)) w (unwrap_or (take_pending j state w) w)
unfolding take_pending set_oneshot
take_pending-Sends id ch j state v w o = elim (Option-cases (lookup j w.pending_requests)) [
  | inl e ↦
      let same : unwrap_or (take_pending j state w) w ≡ w = ground arith in rw same (o, λ q. inl q)
  | inr (c, e) ↦ (
    record {
      opened = ground (arith, o.opened);
      only = λ i there. ground (arith, lookup-erase i j w.pending_requests, o.only i);
    },
    λ q. ground (arith, o.only j, e),
  )
]

-- Whether an access may send the value to the request.
abbrev pub Answering : Serde → ℕ → Value → Action → Type 0
Answering serde id v (answers j u) = (j ≡ id) × (u ≡ v)
Answering serde id v (resolves response) =
    (response.id ≡ id) × (into_value serde.error_to_value response.outcome ≡ some v)
Answering serde id v (acknowledges j tag) = ⊥
Answering serde id v (tells text) = ⊥
Answering serde id v (pairs outcome) = ⊥
Answering serde id v (settles params) = ⊥
Answering serde id v (updates params) = ⊥
Answering serde id v extends = ⊥
Answering serde id v deletes = ⊥

sent-injective : (u v : Value) → sent u ≡ sent v → u ≡ v
sent-injective u v e = cc

module _ (serde : Serde) (ciphers : Ciphers) (hex : Hex) (has_callback : Bool) where
  resolve-Sends :
      (id ch : ℕ) (v : Value) (response : Response Value) (w : World)
      → IsOwned id ch w
      → Sends id ch v (Answering serde id v (resolves response)) w (resolve serde response w).0
  unfolding resolve
  resolve-Sends id ch v response w o =
      elim (Option-cases (into_value serde.error_to_value response.outcome)) [
        | inl e ↦
            let same : (resolve serde response w).0
                ≡ unwrap_or (take_pending response.id dropped w) w =
              ground arith in
            let t = take_pending-Sends id ch response.id dropped v w o in
            rw same
              (t.0, λ q. elim (t.1 q) [ inl old ↦ inl old | inr (i, d) ↦ absurd (ground arith) ])
        | inr (u, e) ↦
            let same : (resolve serde response w).0
                ≡ unwrap_or (take_pending response.id (sent u) w) w =
              ground arith in
            let t = take_pending-Sends id ch response.id (sent u) v w o in
            rw same (
              t.0,
              λ q. elim (t.1 q) [
                | inl old ↦ inl old
                | inr (i, d) ↦ inr (i, e ∙ ap (λ x. some x) (sent-injective u v d))
              ],
            )
      ]

  -- Each access of a handler leaves the channel its request's own, and sends only what it may.
  pub act-Sends :
      (id ch : ℕ) (v : Value) (nonce : Bytes) (a : Action) (w : World)
      → IsOwned id ch w
      → Sends id ch v (Answering serde id v a) w (act serde ciphers hex has_callback nonce a w).0
  unfolding act
  act-Sends id ch v nonce a w o = elim (IsQuiet-cases serde ciphers hex has_callback a) [
    | inl quiet ↦
        Same-Sends id ch v _ w _ o (act-Same serde ciphers hex has_callback nonce a w quiet)
    | inr (inl (j, u, e)) ↦
        let t = take_pending-Sends id ch j (sent u) v w o in
        rw e (
          t.0,
          λ q. elim (t.1 q) [ inl old ↦ inl old | inr (i, d) ↦ inr (i, sent-injective u v d) ],
        )
    | inr (inr (r, e)) ↦ rw e (resolve-Sends id ch v r w o)
  ]
