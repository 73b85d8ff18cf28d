-- ===== src/Bindings/Explorer/Transfers.antt =====
-- Which transfers of BlockScout's answer a caller gets.
use play_cpp_sdk.Prelude.{
  ℕ, ◌≡◌, ◌<◌, refl, sym, ap, suc, Option, none, some, List, [], ◌∷◌, ◌++◌, arith, Option-cases,
  inl, inr, All, length,
}
use play_cpp_sdk.Prelude.Text.{Text}
use play_cpp_sdk.Rust.Effect.{ok}
use play_cpp_sdk.Rust.Decimal.{u64_mod, to_text, parse_u64, parse_u64-to_text}
use play_cpp_sdk.V1.Protocol.{Url}
use play_cpp_sdk.Bindings.Explorer.{
  RawTxDetail, RawResponse, RawBlockScoutTransfer, QueryOption, try_from, details_of, transfers_url,
  get_token_transfers, request,
}

-- A detail has the fields of a transfer, with the number that its text of the block is read as.
abbrev pub Copies : RawBlockScoutTransfer → RawTxDetail → Type 0
Copies tx d =
    (parse_u64 tx.block_number ≡ some d.block_no)
    × (d.hash ≡ tx.hash)
    × (d.to_address ≡ tx.to)
    × (d.from_address ≡ tx.from)
    × (d.value ≡ tx.value)
    × (d.timestamp ≡ tx.time_stamp)
    × (d.contract_address ≡ tx.contract_address)

-- The details of the transfers, in order, without those whose block number is not read.
pub data Picks : List RawBlockScoutTransfer → List RawTxDetail → Type 0 where
  nothing : Picks [] []
  takes :
      {tx : RawBlockScoutTransfer} {txs : List RawBlockScoutTransfer} {d : RawTxDetail}
      {ds : List RawTxDetail}
      → Copies tx d
      → Picks txs ds
      → Picks (tx ∷ txs) (d ∷ ds)
  skips :
      {tx : RawBlockScoutTransfer} {txs : List RawBlockScoutTransfer} {ds : List RawTxDetail}
      → parse_u64 tx.block_number ≡ none
      → Picks txs ds
      → Picks (tx ∷ txs) ds

details_of-Picks : (txs : List RawBlockScoutTransfer) → Picks txs (details_of txs)
unfolding details_of try_from
details_of-Picks [] = nothing
details_of-Picks (tx ∷ txs) = elim (Option-cases (parse_u64 tx.block_number)) [
  | inl bad ↦ rw bad (skips bad (details_of-Picks txs))
  | inr (n, good) ↦
      rw good (takes (good, refl, refl, refl, refl, refl, refl) (details_of-Picks txs))
]

-- The number of transfers that are left out is what the lengths differ by.
module _ (fetch : Url → Option (RawResponse RawBlockScoutTransfer))
    (base address contract_address : Text) where
  -- The transfers of an account: where they are returned, exactly one URL was requested, that of an option
  -- that BlockScout has, and they are the details of the transfers in the answer, in order; those
  -- whose block number is not a `u64` are left out, without an error.
  pub get_token_transfers-Picks :
      (option : QueryOption) (urls urls' : List Url) (details : List RawTxDetail)
      → get_token_transfers fetch base address contract_address option urls ≡ (urls', ok details)
      → (url : Url) × (resp : RawResponse RawBlockScoutTransfer) × (transfers_url base address
            contract_address option
          ≡ some url)
        × (fetch url ≡ some resp)
        × (urls' ≡ urls ++ url ∷ [])
        × Picks resp.result details
  unfolding get_token_transfers request
  get_token_transfers-Picks option urls urls' details done =
      elim (Option-cases (transfers_url base address contract_address option)) [
        | inl unsupported ↦ absurd (ground arith)
        | inr (url, e1) ↦ elim (Option-cases (fetch url)) [
          | inl bad ↦ absurd (ground arith)
          | inr (resp, e2) ↦
              let same : details_of resp.result ≡ details = ground arith in
              (url, resp, e1, e2, ground arith, rw (sym same) (details_of-Picks resp.result))
        ]
      ]

-- A transfer with the number of a block in decimal.
abbrev pub IsNumbered : RawBlockScoutTransfer → Type 0
IsNumbered tx = (n : ℕ) × (n < u64_mod) × (tx.block_number ≡ to_text n)

-- If every transfer has the number of its block in decimal, none is left out.
pub details_of-length :
    (txs : List RawBlockScoutTransfer) → All IsNumbered txs → length (details_of txs) ≡ length txs
unfolding details_of try_from
details_of-length [] h = refl
details_of-length (tx ∷ txs) ((n, fits, here), rest) =
    let back = parse_u64-to_text n fits in
    let read : parse_u64 tx.block_number ≡ some n = rw here back in
    rw read (ap suc (details_of-length txs rest))
