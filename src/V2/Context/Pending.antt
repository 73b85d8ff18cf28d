-- ===== src/V2/Context/Pending.antt =====
-- The map of pending requests of WalletConnect 2.0 and the one-shot channels behind it: each pending id
-- has a channel of its own whose sender is unused, through each access to them.
use play_cpp_sdk.Prelude.{
  ℕ, ◌+◌, ◌<◌, ◌≡◌, ◌≢◌, refl, sym, ◌∙◌, ◌⊎◌, inl, inr, some, arith, if◌then◌else◌, ◌==◌,
  Option-cases, unwrap_or,
}
use play_cpp_sdk.Prelude.Assoc.{lookup, lookup-erase, lookup-insert}
use play_cpp_sdk.V2.Context.{World, Oneshot, waiting, dropped, set_oneshot, register, take_pending}

pub record IsLinked (w : World) : Type 0 where
  pub unused :
      (id ch : ℕ)
      → lookup id w.pending_requests ≡ some ch
      → (ch < w.next_oneshot) × (w.oneshots ch ≡ waiting)
  pub own :
      (i j ch : ℕ)
      → lookup i w.pending_requests ≡ some ch
      → lookup j w.pending_requests ≡ some ch
      → i ≡ j

-- Channels stay open for good, and a used one stays as it is.
pub record Keeps (w w' : World) : Type 0 where
  pub grows : (c : ℕ) → c < w.next_oneshot → c < w'.next_oneshot
  pub settled : (c : ℕ) → c < w.next_oneshot → w.oneshots c ≢ waiting → w'.oneshots c ≡ w.oneshots c

abbrev pub Tracks : World → World → Type 0
Tracks w w' = IsLinked w' × Keeps w w'

pub Tracks-trans : (u v w : World) → Tracks u v → Tracks v w → Tracks u w
Tracks-trans u v w p q = (
  q.0,
  record {
    grows = λ c h. q.1.grows c (p.1.grows c h);
    settled = λ c h used.
        let same = p.1.settled c h used in
        q.1.settled c (p.1.grows c h) (λ e. used (sym same ∙ e)) ∙ same;
  },
)

-- A step that leaves the requests and their channels alone.
pub record Same (w w' : World) : Type 0 where
  pub pending : w'.pending_requests ≡ w.pending_requests
  pub oneshots : w'.oneshots ≡ w.oneshots
  pub next : w'.next_oneshot ≡ w.next_oneshot

pub Same-refl : (w : World) → Same w w
Same-refl w = record { pending = refl; oneshots = refl; next = refl }

pub Same-Tracks : (w w' : World) → IsLinked w → Same w w' → Tracks w w'
Same-Tracks w w' l s = (
  record {
    unused = λ id ch. rw (s.pending, s.oneshots, s.next) (l.unused id ch);
    own = λ i j ch. rw s.pending (l.own i j ch);
  },
  record { grows = λ c h. rw s.next h; settled = λ c h used. rw s.oneshots refl },
)

-- A request leaves the map, and its sender is used.
pub take_pending-Tracks :
    (id : ℕ) (state : Oneshot) (w : World)
    → state ≢ waiting
    → IsLinked w
    → Tracks w (unwrap_or (take_pending id state w) w)
unfolding take_pending set_oneshot
take_pending-Tracks id state w used l = elim (Option-cases (lookup id w.pending_requests)) [
  | inl e ↦
      let same : unwrap_or (take_pending id state w) w ≡ w = ground arith in
      rw same (Same-Tracks w w l (Same-refl w))
  | inr (ch, e) ↦ (
    record {
      unused = λ j c there.
          ground (arith, lookup-erase j id w.pending_requests, l.unused j c, l.own id j c, e);
      own = λ i j c p q. ground (
        arith,
        lookup-erase i id w.pending_requests,
        lookup-erase j id w.pending_requests,
        l.own i j c,
        e,
      );
    },
    record {
      grows = λ c h. ground (arith, e);
      settled = λ c h unused. ground (arith, l.unused id ch, e);
    },
  )
]

pub register_pending :
    (id j : ℕ) (w : World)
    → lookup j (register id w).pending_requests
      ≡ (if id == j then some w.next_oneshot else lookup j w.pending_requests)
unfolding register
register_pending id j w = ground (arith, lookup-insert j id w.next_oneshot w.pending_requests)

-- A channel that was open stays as it is, or was the one that the id had before.
pub register_other :
    (id c : ℕ) (w : World)
    → c < w.next_oneshot
    → (register id w).oneshots c ≡ w.oneshots c
      ⊎ (lookup id w.pending_requests ≡ some c) × ((register id w).oneshots c ≡ dropped)
unfolding register
register_other id c w h = elim (Option-cases (lookup id w.pending_requests)) [
  | inl free ↦ inl (ground arith)
  | inr (old, taken) ↦ ground arith
]

register_fresh : (id : ℕ) (w : World) → (register id w).oneshots w.next_oneshot ≡ waiting
unfolding register
register_fresh id w = ground arith

register_next : (id : ℕ) (w : World) → (register id w).next_oneshot ≡ w.next_oneshot + 1
unfolding register
register_next id w = refl

-- A request enters the map under a channel of its own.
pub register-Tracks : (id : ℕ) (w : World) → IsLinked w → Tracks w (register id w)
register-Tracks id w l = (
  record {
    unused = λ j ch e. ground (
      arith,
      register_pending id j w,
      register_next id w,
      register_fresh id w,
      register_other id ch w,
      l.unused j ch,
      l.own id j ch,
    );
    own = λ i j ch p q. ground (
      arith,
      register_pending id i w,
      register_pending id j w,
      l.own i j ch,
      l.unused i ch,
      l.unused j ch,
    );
  },
  record {
    grows = λ c h. ground (arith, register_next id w);
    settled = λ c h used. ground (arith, register_other id c w, l.unused id c);
  },
)
