-- ===== src/V1/Context/Sizes.antt =====
-- What a change of the pending requests leaves as it was, and how many requests there are then.
use play_cpp_sdk.Prelude.{ℕ, ◌+◌, ◌≡◌, inl, inr, arith, Option-cases, length, ◌≤◌}
use play_cpp_sdk.Prelude.Assoc.{lookup, length-erase, length-insert}
use play_cpp_sdk.V1.Protocol.{Value}
use play_cpp_sdk.V1.Context.{
  World, open_oneshot, settle, settle_old, insert_pending, remove_pending, take_pending, answer,
}
use play_cpp_sdk.V1.Context.Pending.{register}

-- Registration leaves the rest of the state alone.
pub record Rest (w w' : World) : Type 0 where
  pub session_same : w'.session ≡ w.session
  pub queue_same : w'.queue ≡ w.queue
  pub open_same : w'.queue_open ≡ w.queue_open
  pub limit_same : w'.pending_requests_limit ≡ w.pending_requests_limit

pub register-Rest : (id : ℕ) (w : World) → Rest w (register id w)
unfolding insert_pending open_oneshot settle_old settle
register-Rest id w = elim (Option-cases (lookup id w.pending_requests)) [
  | inl free ↦ record {
    session_same = ground arith;
    queue_same = ground arith;
    open_same = ground arith;
    limit_same = ground arith;
  }
  | inr (old, taken) ↦ record {
    session_same = ground arith;
    queue_same = ground arith;
    open_same = ground arith;
    limit_same = ground arith;
  }
]

pub register_size :
    (id : ℕ) (w : World) → length (register id w).pending_requests ≤ length w.pending_requests + 1
unfolding insert_pending open_oneshot settle_old settle
register_size id w = elim (Option-cases (lookup id w.pending_requests)) [
  | inl free ↦ ground (arith, length-insert id w.next_oneshot w.pending_requests)
  | inr (old, taken) ↦ ground (arith, length-insert id w.next_oneshot w.pending_requests)
]

pub answer_size :
    (id : ℕ) (v : Value) (w : World)
    → length (answer id v w).pending_requests ≤ length w.pending_requests
unfolding answer take_pending remove_pending settle
answer_size id v w = ground (arith, length-erase id w.pending_requests)

pub answer_limit :
    (id : ℕ) (v : Value) (w : World)
    → (answer id v w).pending_requests_limit ≡ w.pending_requests_limit
unfolding answer take_pending remove_pending settle
answer_limit id v w = ground arith

pub register_flag : (id : ℕ) (w : World) → (register id w).session_pending ≡ w.session_pending
unfolding insert_pending open_oneshot settle_old settle
register_flag id w = elim (Option-cases (lookup id w.pending_requests)) [
  | inl free ↦ ground arith
  | inr (old, taken) ↦ ground arith
]

pub answer_flag :
    (id : ℕ) (v : Value) (w : World) → (answer id v w).session_pending ≡ w.session_pending
unfolding answer take_pending remove_pending settle
answer_flag id v w = ground arith

pub register_callbacks : (id : ℕ) (w : World) → (register id w).callbacks ≡ w.callbacks
unfolding insert_pending open_oneshot settle_old settle
register_callbacks id w = elim (Option-cases (lookup id w.pending_requests)) [
  | inl free ↦ ground arith
  | inr (old, taken) ↦ ground arith
]
