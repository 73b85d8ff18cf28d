-- ===== src/V1/Tests/Sessions.antt =====
-- Runs of the handshake, the session's events, the connector and the interleaved tasks.
use play_cpp_sdk.Prelude.{ℕ, ◌≡◌, refl, true, false, some, List, [], ◌∷◌, ◌++◌, arith}
use play_cpp_sdk.Prelude.Text.{codes}
use play_cpp_sdk.Prelude.Assoc.{lookup}
use play_cpp_sdk.Rust.Effect.{ok, err}
use play_cpp_sdk.V1.Protocol.{Value, Address, SessionParams}
use play_cpp_sdk.V1.Crypto.{seal}
use play_cpp_sdk.V1.Session.{
  Session, SessionInfo, Callbacks, apply, update, connected, updated, disconnected,
}
use play_cpp_sdk.V1.Session
use play_cpp_sdk.V1.Context.{
  Serde, World, already_pending, channel_closed, insert_pending, open_oneshot, with_pending_flag,
  enqueue, with_session,
}
use play_cpp_sdk.V1.Context.Pending.{IsLinked, register}
use play_cpp_sdk.V1.Socket.{received, is_rejection}
use play_cpp_sdk.V1.Handshake.{create_session, start_session}
use play_cpp_sdk.V1.Handshake.Outcomes.{create_session_ok, create_session_wedges}
use play_cpp_sdk.V1.Handshake.Unapproved.{create_session_unapproved}
use play_cpp_sdk.V1.Interleaving.{Reach, here, next, registers, Reach-Tracks}
use play_cpp_sdk.V1.Interleaving.Guarantees.{Tracks}
use play_cpp_sdk.V1.Tests.{ciphers, sixteen, serde, session_params, idle, waits, breaks}

abbrev joined : World
joined = (create_session serde ciphers waits sixteen 3 idle).0

abbrev answer_accounts : List Address
answer_accounts = (7 ∷ []) ∷ []

create_session_ok_example :
    (tx : ℕ) × (w1 : World) × (v : Value) × (params : SessionParams) × (start_session serde ciphers
        sixteen 3 idle
      ≡ (w1, ok tx))
    × ((waits tx w1).1 ≡ received v)
    × (is_rejection (serde.code_of v) ≡ false)
    × (serde.read_session_params v ≡ some params)
    × (joined.session ≡ (Session.apply (waits tx w1).0.session params (waits tx w1).0.callbacks).0)
    × (joined.session_pending ≡ false)
    × (answer_accounts ≡ params.accounts)
    × (25 ≡ params.chain_id)
unfolding create_session insert_pending lookup open_oneshot seal with_pending_flag enqueue apply
    with_session
create_session_ok_example =
    create_session_ok serde ciphers waits sixteen 3 idle joined answer_accounts 25 refl

-- A wallet that answers without approving the session.
abbrev refused_params : SessionParams
refused_params = record session_params { approved = false }

abbrev refusing : Serde
refusing = record serde { read_session_params = λ v. some refused_params }

abbrev refused : World
refused = (create_session refusing ciphers waits sixteen 3 idle).0

abbrev asked : World
asked = (start_session refusing ciphers sixteen 3 idle).0

create_session_unapproved_example :
    ((create_session refusing ciphers waits sixteen 3 idle).1 ≡ ok ((7 ∷ []) ∷ [], 25))
    × (refused.session.info.connected ≡ false)
    × (refused.session_pending ≡ false)
    × (refused.callbacks.sent
        ≡ asked.callbacks.sent
          ++ (0, record { state = connected; session = some refused.session.info }) ∷ [])
unfolding start_session insert_pending lookup open_oneshot seal with_pending_flag enqueue
    create_session
create_session_unapproved_example =
    create_session_unapproved refusing ciphers waits sixteen 3 0 0 idle asked (codes "answer")
      refused_params refl refl refl refl refl refl refl

abbrev broken : World
broken = (create_session serde ciphers breaks sixteen 3 idle).0

create_session_wedges_example :
    (broken.session_pending ≡ true)
    × (create_session serde ciphers waits sixteen 4 broken ≡ (broken, err already_pending))
unfolding create_session insert_pending lookup open_oneshot seal with_pending_flag enqueue apply
    with_session
create_session_wedges_example =
    create_session_wedges serde ciphers breaks waits sixteen sixteen 3 4 idle broken channel_closed
      refl refl (λ c v. refl) refl refl

idle-IsLinked : IsLinked idle
unfolding lookup
idle-IsLinked = record {
  unused = λ id ch e. absurd (ground arith);
  own = λ i j ch e f. absurd (ground arith);
}

abbrev registered : World
registered = register 3 idle

registered_reached : Reach serde ciphers idle registered
registered_reached = next here (registers 3 refl)

Reach-Tracks_example : Tracks idle registered
Reach-Tracks_example = Reach-Tracks serde ciphers idle-IsLinked registered_reached
