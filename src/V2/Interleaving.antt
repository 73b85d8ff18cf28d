-- ===== src/V2/Interleaving.antt =====
-- The WalletConnect 2.0 client with all of its tasks (wallet-connect/src/v2/core.rs): one for each message of
-- the relay, the task loop that serves the queue, and the application's calls. A step is one task's access
-- to the state that they share; any task may have its step next.
pub mod Channels
pub mod Sessions
pub mod Alone
pub mod Handled
pub mod Race
pub mod Owned
pub mod Sources
pub mod Kept
pub mod Answers
pub mod Requests
use play_cpp_sdk.Prelude.{ℕ, ◌≡◌, Bool, false, Option, List, [], ◌∷◌, ◌++◌}
use play_cpp_sdk.Prelude.Text.{Text}
use play_cpp_sdk.Hex.{Hex}
use play_cpp_sdk.V1.Protocol.{Topic}
use play_cpp_sdk.V2.Crypto.{Ciphers}
use play_cpp_sdk.V2.Context.{Serde, World, ConnectorMessage, register, send_message}
use play_cpp_sdk.V2.Dispatch.History.{Received}
use play_cpp_sdk.V2.Tasks.{Task, arrived, resume}
use play_cpp_sdk.V2.Connector.{task_step}

-- The shared state, and the tasks of messages that have not ended.
pub record Pool : Type 0 where
  pub world : World
  pub tasks : List Task

module _ (serde : Serde) (ciphers : Ciphers) (hex : Hex) (has_callback : Bool) where
  -- What is left when the task between `before` and `behind` has made its next step.
  unfoldable pub resumed : List Task → Task → List Task → World → Pool
  unfolding resume
  resumed before t behind w =
      let (w', left) = resume serde ciphers hex has_callback t w in
      record { world = w'; tasks = before ++ (left ++ behind) }

  pub data Step (p p' : Pool) : Type 0 where
    arrives : (m : Received) → p' ≡ record p { tasks = p.tasks ++ arrived m ∷ [] } → Step p p'
    runs :
        (before : List Task) (t : Task) (behind : List Task)
        → p.tasks ≡ before ++ t ∷ behind
        → p' ≡ resumed before t behind p.world
        → Step p p'
    -- A request of the application enters the map, or a message of its enters the queue.
    registers : (id : ℕ) → p' ≡ record p { world = register id p.world } → Step p p'
    queues :
        (message : ConnectorMessage)
        → p' ≡ record p { world = send_message message p.world }
        → Step p p'
    -- The task loop takes a message from the queue.
    serves :
        (relay : Topic → Option Text) (message : ConnectorMessage) (rest : List ConnectorMessage)
        → p.world.queue ≡ message ∷ rest
        → p' ≡ record p { world = task_step relay message (record p.world { queue = rest }) }
        → Step p p'
    -- The application drops the receiver of the callbacks.
    leaves : p' ≡ record p { world = record p.world { callbacks_open = false } } → Step p p'

  pub data Reach (p : Pool) : Pool → Type 0 where
    here : Reach p p
    next : {q p' : Pool} → Reach p q → Step q p' → Reach p p'
