-- ===== src/V2/Interleaving/Answers.antt =====
-- However the tasks of WalletConnect 2.0 interleave: where the answer to a request comes from.
use play_cpp_sdk.Prelude.{ℕ, ◌≡◌, ◌≢◌, refl, sym, ◌∙◌, ◌⊎◌, inl, inr, Bool, some, []}
use play_cpp_sdk.Prelude.Assoc.{lookup}
use play_cpp_sdk.Hex.{Hex}
use play_cpp_sdk.V1.Protocol.{Value}
use play_cpp_sdk.V2.Crypto.{Ciphers}
use play_cpp_sdk.V2.Session.{SessionInfo}
use play_cpp_sdk.V2.Context.{Serde, World, waiting, sent}
use play_cpp_sdk.V2.Context.Pending.{IsLinked}
use play_cpp_sdk.V2.Dispatch.History.{Received}
use play_cpp_sdk.V2.Interleaving.{Pool, Reach, here, next}
use play_cpp_sdk.V2.Interleaving.Alone.{pool}
use play_cpp_sdk.V2.Interleaving.Owned.{IsOwned, linked-IsOwned}
use play_cpp_sdk.V2.Interleaving.Kept.{Kept, Brings, Step-Kept}
use play_cpp_sdk.V2.Interleaving.Sources.{IsAnswer}

module _ (serde : Serde) (ciphers : Ciphers) (hex : Hex) (has_callback : Bool) (id ch : ℕ)
    (v : Value) where
  -- The messages that have arrived in a run, and the sessions that it has passed.
  abbrev pub Arrived : {p p' : Pool} → Reach serde ciphers hex has_callback p p' → Received → Type 0
  Arrived here m = ⊥
  Arrived (next r step) m = Arrived r m ⊎ Brings serde ciphers hex has_callback id ch v step m

  abbrev pub Passed :
      {p p' : Pool} → Reach serde ciphers hex has_callback p p' → SessionInfo → Type 0
  Passed {p} here s = s ≡ p.world.session
  Passed {p} {p'} (next r step) s = Passed r s ⊎ (s ≡ p'.world.session)

  -- A message of the run that answers the request, for a session of the run.
  abbrev pub Source : {p p' : Pool} → Reach serde ciphers hex has_callback p p' → Type 0
  Source r =
      (m : Received) × (s : SessionInfo) × Arrived r m
      × Passed r s
      × IsAnswer serde ciphers m s id v

  Passed-last :
      {p p' : Pool} (r : Reach serde ciphers hex has_callback p p') → Passed r p'.world.session
  Passed-last here = refl
  Passed-last (next r step) = inr refl

  Reach-Kept :
      {p p' : Pool} (r : Reach serde ciphers hex has_callback p p')
      → IsOwned id ch p.world
      → p.world.oneshots ch ≢ sent v
      → p.tasks ≡ []
      → Kept serde ciphers hex has_callback id ch v (Arrived r) (Source r) p'
  Reach-Kept {p} here o fresh idle = (o, λ e. absurd (fresh e), rw idle tt)
  Reach-Kept {p} {p'} (next {q} r step) o fresh idle =
      Step-Kept serde ciphers hex has_callback id ch v (Arrived r) (Arrived (next r step))
        (Source r) (Source (next r step)) (λ m a. inl a)
        (λ (m, s, a, b, c). (m, s, inl a, inl b, c)) step (λ m b. inr b)
        (λ m a c. (m, q.world.session, inl a, inl (Passed-last r), c)) (Reach-Kept r o fresh idle)

  -- However the tasks of the client interleave: if a pending request with a channel of its own is answered
  -- in a run that starts with no task, then a message has arrived in the run that is an answer to
  -- it, for a session that the client had in the run: it decrypts under that session's pairing key on
  -- the pairing's topic, or under its proposal's key on the proposal's topic, to a response that has
  -- the request's id, and the value that the request is given is that of the response.
  pub Reach-answered :
      (w : World)
      → IsLinked w
      → lookup id w.pending_requests ≡ some ch
      → {p : Pool} (r : Reach serde ciphers hex has_callback (pool w []) p)
      → p.world.oneshots ch ≡ sent v
      → Source r
  Reach-answered w l there r answered =
      (Reach-Kept r (linked-IsOwned id ch w l there)
          (λ e. waits (sym ((l.unused id ch there).1) ∙ e)) refl).1
        answered
    where
      waits : waiting ≢ sent v
      waits e = cc
