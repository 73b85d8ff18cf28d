-- ===== src/V2/Handlers/Responses.antt =====
-- To which request a response of the wallet goes.
use play_cpp_sdk.Prelude.{
  ℕ, ◌≡◌, Option, none, some, arith, if◌then◌else◌, ◌==◌, Option-cases, inl, inr,
}
use play_cpp_sdk.Prelude.Text.{Bytes}
use play_cpp_sdk.Prelude.Assoc.{lookup, lookup-erase}
use play_cpp_sdk.Rust.Effect.{err}
use play_cpp_sdk.Hex.{Hex}
use play_cpp_sdk.V1.Protocol.{Value, Response, into_value}
use play_cpp_sdk.V2.Crypto.{Ciphers}
use play_cpp_sdk.V2.Context.{
  Serde, World, Oneshot, sent, dropped, take_pending, set_oneshot, request_not_found,
}
use play_cpp_sdk.V2.Handlers.{handle_normal_rpc_response}

abbrev pub reply : Option Value → Oneshot
reply none = dropped
reply (some v) = sent v

abbrev pub replied : Option ℕ → Oneshot → ℕ → Oneshot → Oneshot
replied none state c old = old
replied (some ch) state c old = if c == ch then state else old

module _ (serde : Serde) (ciphers : Ciphers) (hex : Hex) where
  -- A readable response goes to the channel of the request with its id, if that is pending, and to no
  -- other: the channel gets the result (or the error as a value), and is dropped if the error is no
  -- value. The id is then no longer pending, and all other ids are as before; the session and the
  -- queue are not touched.
  pub handle_normal_rpc_response_routes :
      (plain : Bytes) (resp : Response Value) (w : World)
      → serde.read_response plain ≡ some resp
      → let w' = (handle_normal_rpc_response serde ciphers hex plain w).0 in
        let state = reply (into_value serde.error_to_value resp.outcome) in
        ((c : ℕ)
          → w'.oneshots c ≡ replied (lookup resp.id w.pending_requests) state c (w.oneshots c))
        × ((j : ℕ)
            → lookup j w'.pending_requests
              ≡ (if resp.id == j then none else lookup j w.pending_requests))
        × (w'.session ≡ w.session)
        × (w'.queue ≡ w.queue)
  unfolding handle_normal_rpc_response take_pending set_oneshot
  handle_normal_rpc_response_routes plain resp w reads =
      elim (Option-cases (lookup resp.id w.pending_requests)) [
        | inl bad ↦ ((λ c. ground arith), (λ j. ground arith), ground arith, ground arith)
        | inr (ch, pending) ↦ elim (Option-cases (into_value serde.error_to_value resp.outcome)) [
          | inl bad ↦ (
            (λ c. ground arith),
            (λ j. ground (arith, lookup-erase j resp.id w.pending_requests)),
            ground arith,
            ground arith,
          )
          | inr (v, good) ↦ (
            (λ c. ground arith),
            (λ j. ground (arith, lookup-erase j resp.id w.pending_requests)),
            ground arith,
            ground arith,
          )
        ]
      ]

  -- A response to no pending request fails, and changes nothing.
  pub handle_normal_rpc_response_unknown :
      (plain : Bytes) (resp : Response Value) (w : World)
      → serde.read_response plain ≡ some resp
      → lookup resp.id w.pending_requests ≡ none
      → handle_normal_rpc_response serde ciphers hex plain w ≡ (w, err request_not_found)
  unfolding handle_normal_rpc_response take_pending
  handle_normal_rpc_response_unknown plain resp w reads unknown = ground arith
