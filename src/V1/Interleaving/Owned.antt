-- ===== src/V1/Interleaving/Owned.antt =====
-- The channel of one request of WalletConnect 1.0, through each access to the state that the tasks share.
use play_cpp_sdk.Prelude.{ℕ, ◌<◌, ◌≡◌, ◌⊎◌, inl, inr, some, arith, Option-cases, unwrap_or}
use play_cpp_sdk.Prelude.Assoc.{lookup, lookup-erase}
use play_cpp_sdk.V1.Protocol.{Value}
use play_cpp_sdk.V1.Context.{
  World, Oneshot, sent, dropped, open_oneshot, settle, remove_pending, take_pending, answer,
  set_oneshot,
}
use play_cpp_sdk.V1.Context.Pending.{
  IsLinked, Same, Takes, take_pending-Takes, answer-Takes, register, register_pending,
  register_next, register_other,
}

-- No other request has the channel, and it was opened.
pub record IsOwned (id ch : ℕ) (w : World) : Type 0 where
  pub opened : ch < w.next_oneshot
  pub only : (j : ℕ) → lookup j w.pending_requests ≡ some ch → j ≡ id

pub linked-IsOwned :
    (id ch : ℕ) (w : World) → IsLinked w → lookup id w.pending_requests ≡ some ch → IsOwned id ch w
linked-IsOwned id ch w l there = record {
  opened = (l.unused id ch there).0;
  only = λ j e. l.own j id ch e there;
}

-- An access leaves the channel its request's own, and gives it a value only as `May` says.
abbrev pub Sends : ℕ → ℕ → Value → Type 0 → World → World → Type 0
Sends id ch v May w w' =
    IsOwned id ch w' × (w'.oneshots ch ≡ sent v → (w.oneshots ch ≡ sent v) ⊎ May)

module _ (id ch : ℕ) (v : Value) where
  pub Sends-map :
      (May May' : Type 0) (w w' : World)
      → (May → May')
      → Sends id ch v May w w'
      → Sends id ch v May' w w'
  Sends-map May May' w w' f (o, h) =
      (o, λ e. elim (h e) [ inl old ↦ inl old | inr may ↦ inr (f may) ])

  pub Same-Sends :
      (May : Type 0) (w w' : World) → Same w w' → IsOwned id ch w → Sends id ch v May w w'
  Same-Sends May w w' s o = (
    record { opened = rw s.next o.opened; only = λ j. rw s.pending (o.only j) },
    λ e. inl (rw s.oneshots at e),
  )

  Takes-Sends :
      (j : ℕ) (state : Oneshot) (w w' : World)
      → Takes j state w w'
      → IsOwned id ch w
      → Sends id ch v ((j ≡ id) × (state ≡ sent v)) w w'
  Takes-Sends j state w w' t o = (
    record {
      opened = ground (arith, o.opened, t.same_next);
      only = λ i e. ground (arith, t.pending_after i, o.only i);
    },
    λ e. ground (arith, t.oneshots_after ch, o.only j, t.was_pending),
  )

  sent-eq : (u : Value) → sent u ≡ sent v → u ≡ v
  sent-eq u e = cc

  -- An answer by the client itself.
  pub answer-Sends :
      (j : ℕ) (u : Value) (w : World)
      → IsOwned id ch w
      → Sends id ch v ((j ≡ id) × (u ≡ v)) w (answer j u w)
  answer-Sends j u w o = elim (answer-Takes j u w) [
    | inl (_, same) ↦ rw same (o, λ e. inl e)
    | inr t ↦
        Sends-map ((j ≡ id) × (sent u ≡ sent v)) _ w (answer j u w) (λ (i, e). (i, sent-eq u e))
          (Takes-Sends j (sent u) w (answer j u w) t o)
  ]

  pub take-Sends :
      (j : ℕ) (state : Oneshot) (w : World)
      → IsOwned id ch w
      → Sends id ch v ((j ≡ id) × (state ≡ sent v)) w (unwrap_or (take_pending j state w) w)
  take-Sends j state w o = elim (Option-cases (take_pending j state w)) [
    | inl e ↦ rw e (o, λ q. inl q)
    | inr (w', e) ↦ rw e (Takes-Sends j state w w' (take_pending-Takes j state w w' e) o)
  ]

  pub register-Sends :
      (May : Type 0) (j : ℕ) (w : World) → IsOwned id ch w → Sends id ch v May w (register j w)
  register-Sends May j w o = (
    record {
      opened = ground (arith, o.opened, register_next j w);
      only = λ i e. ground (arith, register_pending j i w, o.only i, o.opened);
    },
    λ e. inl (ground (arith, register_other j ch w, o.opened)),
  )

  pub refuse-Sends :
      (May : Type 0) (w : World)
      → IsOwned id ch w
      → Sends id ch v May w (settle w.next_oneshot dropped (open_oneshot w))
  unfolding settle open_oneshot set_oneshot
  refuse-Sends May w o = (
    record { opened = ground (arith, o.opened); only = λ i e. o.only i e },
    λ e. inl (ground (arith, o.opened)),
  )

  pub expire-Sends :
      (May : Type 0) (j : ℕ) (w : World)
      → IsOwned id ch w
      → Sends id ch v May w (remove_pending j w)
  unfolding remove_pending
  expire-Sends May j w o = (
    record {
      opened = o.opened;
      only = λ i e. ground (arith, lookup-erase i j w.pending_requests, o.only i);
    },
    λ e. inl e,
  )
