-- ===== src/V2/Interleaving/Kept.antt =====
-- What each step of the client keeps of a request and of the tasks that may answer it.
use play_cpp_sdk.Prelude.{
  false, ℕ, ◌≡◌, refl, subst, inl, inr, Bool, Option, none, some, List, [], ◌∷◌, All, All-append,
  All-map, All-split,
}
use play_cpp_sdk.Prelude.Text.{Bytes}
use play_cpp_sdk.Rust.Effect.{Result, ok, err, panic}
use play_cpp_sdk.Hex.{Hex}
use play_cpp_sdk.V1.Protocol.{Value}
use play_cpp_sdk.V2.Crypto.{Ciphers}
use play_cpp_sdk.V2.Context.{Serde, Error, World, sent}
use play_cpp_sdk.V2.Dispatch.History.{Received}
use play_cpp_sdk.V2.Tasks.{
  Action, act, Task, arrived, handling, resume, remaining, started, message_actions,
}
use play_cpp_sdk.V2.Interleaving.{
  Pool, resumed, Step, arrives, runs, registers, queues, serves, leaves,
}
use play_cpp_sdk.V2.Interleaving.Channels.{send_message-Same, task_step-Same, remaining-world}
use play_cpp_sdk.V2.Interleaving.Owned.{IsOwned, Sends, Same-Sends, register-Sends, act-Sends}
use play_cpp_sdk.V2.Interleaving.Sources.{IsAnswer, Gives, GivesSome, message-GivesSome}

module _ (serde : Serde) (ciphers : Ciphers) (hex : Hex) (has_callback : Bool) (id ch : ℕ)
    (v : Value) where
  -- Every task was started by a message of which `A` holds, and answers the request only with `X`.
  abbrev pub Sourced : (Received → Type 0) → Type 0 → Task → Type 0
  Sourced A X (arrived m) = A m
  Sourced A X (handling nonce actions) = Gives serde ciphers id v X actions

  abbrev pub Kept : (Received → Type 0) → Type 0 → Pool → Type 0
  Kept A X p =
      IsOwned id ch p.world × (p.world.oneshots ch ≡ sent v → X) × All (Sourced A X) p.tasks

  Gives-map :
      (X Y : Type 0) (actions : List Action)
      → (X → Y)
      → Gives serde ciphers id v X actions
      → Gives serde ciphers id v Y actions
  Gives-map X Y actions f h = All-map _ _ actions (λ a g u. f (g u)) h

  Sourced-map :
      (A B : Received → Type 0) (X Y : Type 0)
      → ((m : Received) → A m → B m)
      → (X → Y)
      → (t : Task) → Sourced A X t
      → Sourced B Y t
  Sourced-map A B X Y f g (arrived m) h = f m h
  Sourced-map A B X Y f g (handling nonce actions) h = Gives-map X Y actions g h

  started-Sourced :
      (A : Received → Type 0) (X Y : Type 0) (nonce : Bytes) (actions : Option (List Action))
      → (X → Y)
      → GivesSome serde ciphers id v X actions
      → All (Sourced A Y) (started serde ciphers hex has_callback nonce actions)
  started-Sourced A X Y nonce none f h = tt
  started-Sourced A X Y nonce (some actions) f h = (Gives-map X Y actions f h, tt)

  remaining-Sourced :
      (A : Received → Type 0) (Y : Type 0) (nonce : Bytes) (rest : List Action)
      (r : World × Result Error (Unit {0}))
      → Gives serde ciphers id v Y rest
      → All (Sourced A Y) (remaining serde ciphers hex has_callback nonce rest r).1
  remaining-Sourced A Y nonce rest (w, ok a) h = (h, tt)
  remaining-Sourced A Y nonce rest (w, err e) h = tt
  remaining-Sourced A Y nonce rest (w, panic) h = tt

  -- What a task that has its step needs of what is known before, `A` and `X`, and leaves, `B` and `Y`.
  module _ (A B : Received → Type 0) (X Y : Type 0) (more : (m : Received) → A m → B m)
      (goes : X → Y) where
    resume-Kept :
        (t : Task) (w : World)
        → ((m : Received) → A m → IsAnswer serde ciphers m w.session id v → Y)
        → IsOwned id ch w
        → (w.oneshots ch ≡ sent v → X)
        → Sourced A X t
        → IsOwned id ch (resume serde ciphers hex has_callback t w).0
          × ((resume serde ciphers hex has_callback t w).0.oneshots ch ≡ sent v → Y)
          × All (Sourced B Y) (resume serde ciphers hex has_callback t w).1
    unfolding resume
    resume-Kept (arrived m) w reads o h s = (
      o,
      λ e. goes (h e),
      started-Sourced B (IsAnswer serde ciphers m w.session id v) Y m.nonce
          (message_actions serde ciphers m.topic m.message w.session) (reads m s)
          (message-GivesSome serde ciphers id v m w.session),
    )
    resume-Kept (handling nonce []) w reads o h s = (o, λ e. goes (h e), tt)
    resume-Kept (handling nonce (a ∷ rest)) w reads o h s =
        let r = act serde ciphers hex has_callback nonce a w in
        let t = act-Sends serde ciphers hex has_callback id ch v nonce a w o in
        let same = remaining-world serde ciphers hex has_callback nonce rest r in
        (
          rw same t.0,
          rw same (λ e. elim (t.1 e) [ inl old ↦ goes (h old) | inr may ↦ goes (s.0 may) ]),
          remaining-Sourced B Y nonce rest r (Gives-map X Y rest goes s.1),
        )

    Quiet-Kept :
        (p : Pool) (w : World)
        → Sends id ch v ⊥ p.world w
        → Kept A X p
        → Kept B Y (record p { world = w })
    Quiet-Kept p w t (o, h, s) = (
      t.0,
      λ e. elim (t.1 e) [ inl old ↦ goes (h old) | inr never ↦ absurd never ],
      All-map _ _ p.tasks (Sourced-map A B X Y more goes) s,
    )

  -- The message that a step brings.
  abbrev pub Brings : {p p' : Pool} → Step serde ciphers hex has_callback p p' → Received → Type 0
  Brings (arrives n e) m = n ≡ m
  Brings (runs before t behind shape e) m = ⊥
  Brings (registers j e) m = ⊥
  Brings (queues message e) m = ⊥
  Brings (serves relay message rest shape e) m = ⊥
  Brings (leaves e) m = ⊥

  module _ (A B : Received → Type 0) (X Y : Type 0) (more : (m : Received) → A m → B m)
      (goes : X → Y) where
    pub Step-Kept :
        {p p' : Pool} (step : Step serde ciphers hex has_callback p p')
        → ((m : Received) → Brings step m → B m)
        → ((m : Received) → A m → IsAnswer serde ciphers m p.world.session id v → Y)
        → Kept A X p
        → Kept B Y p'
    unfolding resumed
    Step-Kept {p} (arrives n e) new reads (o, h, s) = rw e (
      o,
      λ q. goes (h q),
      All-append _ p.tasks (arrived n ∷ []) (All-map _ _ p.tasks (Sourced-map A B X Y more goes) s)
          (new n refl, tt),
    )
    Step-Kept {p} (runs before t behind shape e) new reads (o, h, s) =
        let parts =
          All-split (Sourced A X) before (t ∷ behind) (subst (All (Sourced A X)) shape s) in
        let done = resume-Kept A B X Y more goes t p.world reads o h parts.1.0 in
        rw e (
          done.0,
          done.1,
          All-append _ before _ (All-map _ _ before (Sourced-map A B X Y more goes) parts.0) (
              All-append _ _ behind done.2
                (All-map _ _ behind (Sourced-map A B X Y more goes) parts.1.1)),
        )
    Step-Kept {p} (registers j e) new reads k =
        rw e (Quiet-Kept A B X Y more goes p _ (register-Sends id ch j v ⊥ p.world k.0) k)
    Step-Kept {p} (queues message e) new reads k = rw e (
        Quiet-Kept A B X Y more goes p _
          (Same-Sends id ch v ⊥ p.world _ k.0 (send_message-Same message p.world)) k)
    Step-Kept {p} (serves relay message rest shape e) new reads k = rw e (
        Quiet-Kept A B X Y more goes p _
          (Same-Sends id ch v ⊥ p.world _ k.0
            (task_step-Same serde ciphers hex has_callback relay message rest p.world))
          k)
    Step-Kept {p} (leaves e) new reads k = rw e (
        Quiet-Kept A B X Y more goes p _
          (Same-Sends id ch v ⊥ p.world (record p.world { callbacks_open = false }) k.0
            (record { pending = refl; oneshots = refl; next = refl }))
          k)
