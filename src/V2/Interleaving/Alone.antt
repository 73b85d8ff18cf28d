-- ===== src/V2/Interleaving/Alone.antt =====
-- A task that nothing interrupts: what the handlers do as a whole is one of the runs of the client.
use play_cpp_sdk.Prelude.{◌≡◌, refl, Bool, Option, none, some, List, [], ◌∷◌, ◌++◌}
use play_cpp_sdk.Prelude.Text.{Bytes}
use play_cpp_sdk.Rust.Effect.{Result, ok, err, panic, continue}
use play_cpp_sdk.Hex.{Hex}
use play_cpp_sdk.V2.Crypto.{Ciphers}
use play_cpp_sdk.V2.Context.{Serde, Error, World}
use play_cpp_sdk.V2.Dispatch.{message_received, ignored}
use play_cpp_sdk.V2.Dispatch.History.{Received, receive}
use play_cpp_sdk.V2.Tasks.{Action, act, run, Task, arrived, handling, resume, message_actions}
use play_cpp_sdk.V2.Tasks.Whole.{alone, message_received-run}
use play_cpp_sdk.V2.Interleaving.{Pool, resumed, arrives, runs, Reach, here, next}

abbrev pub pool : World → List Task → Pool
pool w ts = record { world = w; tasks = ts }

module _ (serde : Serde) (ciphers : Ciphers) (hex : Hex) (has_callback : Bool) where
  abbrev Runs : Pool → Pool → Type 0
  Runs = Reach serde ciphers hex has_callback

  pub Reach-trans : {p q r : Pool} → Runs p q → Runs q r → Runs p r
  Reach-trans s here = s
  Reach-trans s (next t u) = next (Reach-trans s t) u

  -- After one access the task goes on, or has ended with an error or a panic.
  after_act :
      (nonce : Bytes) (a : Action) (rest : List Action) (before behind : List Task) (w : World)
      (r : World × Result Error (Unit {0}))
      → act serde ciphers hex has_callback nonce a w ≡ r
      → ((v : World)
          → Runs
              (pool v (before ++ handling nonce rest ∷ behind))
              (pool (run serde ciphers hex has_callback nonce rest v).0 (before ++ behind)))
      → Runs (pool w (before ++ handling nonce (a ∷ rest) ∷ behind)) (
          pool
            (continue r (λ _. run serde ciphers hex has_callback nonce rest)).0
            (before ++ behind))
  unfolding resumed resume
  after_act nonce a rest before behind w (v, ok u) e others =
      Reach-trans (next here (runs before (handling nonce (a ∷ rest)) behind refl (rw e refl)))
        (others v)
  after_act nonce a rest before behind w (v, err x) e others =
      next here (runs before (handling nonce (a ∷ rest)) behind refl (rw e refl))
  after_act nonce a rest before behind w (v, panic) e others =
      next here (runs before (handling nonce (a ∷ rest)) behind refl (rw e refl))

  -- A task can make all of its accesses in a row, wherever it stands.
  pub run-Reach :
      (nonce : Bytes) (actions : List Action) (before behind : List Task) (w : World)
      → Runs
          (pool w (before ++ handling nonce actions ∷ behind))
          (pool (run serde ciphers hex has_callback nonce actions w).0 (before ++ behind))
  unfolding run resumed resume
  run-Reach nonce [] before behind w = next here (runs before (handling nonce []) behind refl refl)
  run-Reach nonce (a ∷ rest) before behind w =
      after_act nonce a rest before behind w (act serde ciphers hex has_callback nonce a w) refl
        (λ v. run-Reach nonce rest before behind v)

  pub ignored-world : (r : World × Result Error (Unit {0})) → (ignored r).0 ≡ r.0
  ignored-world (w, ok a) = refl
  ignored-world (w, err e) = refl
  ignored-world (w, panic) = refl

  started-Reach :
      (m : Received) (before behind : List Task) (w : World) (actions : Option (List Action))
      → message_actions serde ciphers m.topic m.message w.session ≡ actions
      → Runs
          (pool w (before ++ arrived m ∷ behind))
          (pool (alone serde ciphers hex has_callback m.nonce actions w).0 (before ++ behind))
  unfolding resumed resume
  started-Reach m before behind w none e =
      next here (runs before (arrived m) behind refl (rw e refl))
  started-Reach m before behind w (some actions) e =
      rw (ignored-world (run serde ciphers hex has_callback m.nonce actions w)) (
        Reach-trans (next here (runs before (arrived m) behind refl (rw e refl)))
          (run-Reach m.nonce actions before behind w))

  -- A message can arrive and be handled as a whole, between any two steps of the other tasks.
  pub received-Reach :
      (m : Received) (before : List Task) (w : World)
      → Runs (pool w before) (
          pool
            (message_received serde ciphers hex m.nonce has_callback m.topic m.message w).0
            (before ++ []))
  received-Reach m before w =
      rw (message_received-run serde ciphers hex has_callback m.nonce m.topic m.message w)
        (Reach-trans (next here (arrives m refl)) (started-Reach m before [] w _ refl))

  -- Messages that are handled one after the other, each as a whole, are one of the client's runs.
  pub receive-Reach :
      (ms : List Received) (w : World)
      → Runs (pool w []) (pool (receive serde ciphers hex has_callback ms w) [])
  unfolding receive
  receive-Reach [] w = here
  receive-Reach (m ∷ ms) w = Reach-trans (received-Reach m [] w) (receive-Reach ms _)
