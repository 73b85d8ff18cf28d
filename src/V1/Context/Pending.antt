-- ===== src/V1/Context/Pending.antt =====
-- The map of pending requests and the one-shot channels behind it: each pending id has a channel of
-- its own whose sender is unused.
use play_cpp_sdk.Prelude.{
  ℕ, ◌+◌, ◌<◌, ◌≡◌, ◌≢◌, refl, sym, ◌∙◌, ◌⊎◌, inl, inr, none, some, arith, if◌then◌else◌, ◌==◌,
  Option-cases,
}
use play_cpp_sdk.Prelude.Assoc.{lookup, lookup-erase, lookup-insert}
use play_cpp_sdk.V1.Protocol.{Value}
use play_cpp_sdk.V1.Context.{
  World, Oneshot, waiting, sent, dropped, set_oneshot, open_oneshot, settle, settle_old,
  insert_pending, remove_pending, take_pending, answer,
}

pub record IsLinked (w : World) : Type 0 where
  -- A pending request's channel was opened, and its sender is unused.
  pub unused :
      (id ch : ℕ)
      → lookup id w.pending_requests ≡ some ch
      → (ch < w.next_oneshot) × (w.oneshots ch ≡ waiting)
  -- No two requests share a channel.
  pub own :
      (i j ch : ℕ)
      → lookup i w.pending_requests ≡ some ch
      → lookup j w.pending_requests ≡ some ch
      → i ≡ j

-- A used channel stays as it is, and channels stay open for good.
pub record Keeps (w w' : World) : Type 0 where
  pub grows : (c : ℕ) → c < w.next_oneshot → c < w'.next_oneshot
  pub settled : (c : ℕ) → c < w.next_oneshot → w.oneshots c ≢ waiting → w'.oneshots c ≡ w.oneshots c

-- Taking a request out: what becomes of each channel and of each id.
pub record Takes (id : ℕ) (state : Oneshot) (w w' : World) : Type 0 where
  pub channel : ℕ
  pub was_pending : lookup id w.pending_requests ≡ some channel
  pub oneshots_after : (c : ℕ) → w'.oneshots c ≡ (if c == channel then state else w.oneshots c)
  pub pending_after :
      (j : ℕ)
      → lookup j w'.pending_requests ≡ (if id == j then none else lookup j w.pending_requests)
  pub same_next : w'.next_oneshot ≡ w.next_oneshot
  pub same_queue : w'.queue ≡ w.queue
  pub same_session : w'.session ≡ w.session

pub take_pending-Takes :
    (id : ℕ) (state : Oneshot) (w w' : World)
    → take_pending id state w ≡ some w'
    → Takes id state w w'
unfolding take_pending remove_pending settle set_oneshot
take_pending-Takes id state w w' e = elim (Option-cases (lookup id w.pending_requests)) [
  | inl none_there ↦ absurd (ground arith)
  | inr (ch, there) ↦ record {
    channel = ch;
    was_pending = there;
    oneshots_after = λ c. ground arith;
    pending_after = λ j. ground (arith, lookup-erase j id w.pending_requests);
    same_next = ground arith;
    same_queue = ground arith;
    same_session = ground arith;
  }
]

pub Takes-IsLinked :
    (id : ℕ) (state : Oneshot) (w w' : World)
    → state ≢ waiting
    → Takes id state w w'
    → IsLinked w
    → IsLinked w'
Takes-IsLinked id state w w' used t l = record {
  unused = λ j ch e. ground (
    arith,
    t.pending_after j,
    t.oneshots_after ch,
    l.unused j ch,
    l.own id j ch,
    t.was_pending,
    t.same_next,
  );
  own = λ i j ch p q. ground (arith, t.pending_after i, t.pending_after j, l.own i j ch);
}

pub Takes-Keeps :
    (id : ℕ) (state : Oneshot) (w w' : World) → Takes id state w w' → IsLinked w → Keeps w w'
Takes-Keeps id state w w' t l = record {
  grows = λ c h. ground (arith, t.same_next);
  settled = λ c h used. ground (arith, t.oneshots_after c, l.unused id t.channel, t.was_pending);
}

-- A request is registered under a channel of its own.
abbrev pub register : ℕ → World → World
register id w = insert_pending id w.next_oneshot (open_oneshot w)

pub register_pending :
    (id j : ℕ) (w : World)
    → lookup j (register id w).pending_requests
      ≡ (if id == j then some w.next_oneshot else lookup j w.pending_requests)
unfolding insert_pending open_oneshot settle_old settle
register_pending id j w = elim (Option-cases (lookup id w.pending_requests)) [
  | inl free ↦ ground (arith, lookup-insert j id w.next_oneshot w.pending_requests)
  | inr (old, taken) ↦ ground (arith, lookup-insert j id w.next_oneshot w.pending_requests)
]

pub register_next : (id : ℕ) (w : World) → (register id w).next_oneshot ≡ w.next_oneshot + 1
unfolding insert_pending open_oneshot settle_old settle
register_next id w = ground arith

register_fresh :
    (id : ℕ) (w : World) → IsLinked w → (register id w).oneshots w.next_oneshot ≡ waiting
unfolding insert_pending open_oneshot settle_old settle set_oneshot
register_fresh id w l = elim (Option-cases (lookup id w.pending_requests)) [
  | inl free ↦ ground arith
  | inr (old, taken) ↦ ground (arith, l.unused id old)
]

pub register_other :
    (id c : ℕ) (w : World)
    → c < w.next_oneshot
    → (register id w).oneshots c ≡ w.oneshots c
      ⊎ (lookup id w.pending_requests ≡ some c) × ((register id w).oneshots c ≡ dropped)
unfolding insert_pending open_oneshot settle_old settle set_oneshot
register_other id c w h = elim (Option-cases (lookup id w.pending_requests)) [
  | inl free ↦ inl (ground arith)
  | inr (old, taken) ↦ ground arith
]

pub register-IsLinked : (id : ℕ) (w : World) → IsLinked w → IsLinked (register id w)
register-IsLinked id w l = record {
  unused = λ j ch e. ground (
    arith,
    register_pending id j w,
    register_next id w,
    register_fresh id w l,
    register_other id ch w,
    l.unused j ch,
    l.own id j ch,
  );
  own = λ i j ch p q. ground (
    arith,
    register_pending id i w,
    register_pending id j w,
    l.own i j ch,
    l.unused i ch,
    l.unused j ch,
  );
}

pub register-Keeps : (id : ℕ) (w : World) → IsLinked w → Keeps w (register id w)
register-Keeps id w l = record {
  grows = λ c h. ground (arith, register_next id w);
  settled = λ c h used. ground (arith, register_other id c w, l.unused id c);
}

-- A step that leaves the requests and their channels alone.
pub record Same (w w' : World) : Type 0 where
  pub pending : w'.pending_requests ≡ w.pending_requests
  pub oneshots : w'.oneshots ≡ w.oneshots
  pub next : w'.next_oneshot ≡ w.next_oneshot

pub Same-IsLinked : (w w' : World) → Same w w' → IsLinked w → IsLinked w'
Same-IsLinked w w' s l = record {
  unused = λ id ch. rw (s.pending, s.oneshots, s.next) (l.unused id ch);
  own = λ i j ch. rw s.pending (l.own i j ch);
}

pub Same-Keeps : (w w' : World) → Same w w' → Keeps w w'
Same-Keeps w w' s = record { grows = λ c h. rw s.next h; settled = λ c h used. rw s.oneshots refl }

pub Keeps-trans : (u v w : World) → Keeps u v → Keeps v w → Keeps u w
Keeps-trans u v w p q = record {
  grows = λ c h. q.grows c (p.grows c h);
  settled = λ c h used.
      let same = p.settled c h used in q.settled c (p.grows c h) (λ e. used (sym same ∙ e)) ∙ same;
}

pub answer-Takes :
    (id : ℕ) (v : Value) (w : World)
    → ((lookup id w.pending_requests ≡ none) × (answer id v w ≡ w))
      ⊎ Takes id (sent v) w (answer id v w)
unfolding answer take_pending
answer-Takes id v w = elim (Option-cases (lookup id w.pending_requests)) [
  | inl missing ↦ inl (missing, ground arith)
  | inr (ch, there) ↦
      let found : take_pending id (sent v) w ≡ some (answer id v w) = ground arith in
      inr (take_pending-Takes id (sent v) w (answer id v w) found)
]

-- A channel that is opened and dropped at once.
pub refused-IsLinked :
    (w : World) → IsLinked w → IsLinked (settle w.next_oneshot dropped (open_oneshot w))
unfolding settle open_oneshot set_oneshot
refused-IsLinked w l = record {
  unused = λ id ch e. ground (arith, l.unused id ch);
  own = λ i j ch p q. l.own i j ch p q;
}

pub refused-Keeps : (w : World) → Keeps w (settle w.next_oneshot dropped (open_oneshot w))
unfolding settle open_oneshot set_oneshot
refused-Keeps w = record { grows = λ c h. omega arith; settled = λ c h used. ground arith }

-- A request that is taken out with its channel left alone.
pub removed-IsLinked : (id : ℕ) (w : World) → IsLinked w → IsLinked (remove_pending id w)
unfolding remove_pending
removed-IsLinked id w l = record {
  unused = λ j ch e. ground (arith, l.unused j ch, lookup-erase j id w.pending_requests);
  own = λ i j ch p q. ground (
    arith,
    l.own i j ch,
    lookup-erase i id w.pending_requests,
    lookup-erase j id w.pending_requests,
  );
}

pub removed-Keeps : (id : ℕ) (w : World) → Keeps w (remove_pending id w)
unfolding remove_pending
removed-Keeps id w = record { grows = λ c h. h; settled = λ c h used. refl }
