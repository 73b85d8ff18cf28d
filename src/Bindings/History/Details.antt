-- ===== src/Bindings/History/Details.antt =====
-- What a transaction history tells of each transaction.
use play_cpp_sdk.Prelude.{
  ◌≡◌, ◌≢◌, refl, ap, suc, subst, some, List, [], ◌∷◌, map, arith, Option-cases, Bool-cases, inl,
  inr, All, unwrap_or, length,
}
use play_cpp_sdk.Prelude.Text.{Text}
use play_cpp_sdk.Rust.Effect.{ok}
use play_cpp_sdk.V1.Protocol.{Address}
use play_cpp_sdk.Bindings.Explorer.{RawTxDetail}
use play_cpp_sdk.Bindings.History.{
  NormalTransaction, Etherscan, from_normal, get_transaction_history, zero_address,
}

-- The printed contract of a detail.
abbrev pub HasContract : RawTxDetail → Type 0
HasContract d = d.contract_address ≢ []

module _ (e : Etherscan) where
  map-HasContract :
      (txs : List NormalTransaction)
      → ((a : Address) → e.print_address a ≢ [])
      → All HasContract (map (from_normal e) txs)
  unfolding from_normal
  map-HasContract [] prints = tt
  map-HasContract (tx ∷ txs) prints =
      (prints (unwrap_or tx.contract_address zero_address), map-HasContract txs prints)

  length-map : (txs : List NormalTransaction) → length (map (from_normal e) txs) ≡ length txs
  length-map [] = refl
  length-map (tx ∷ txs) = ap suc (length-map txs)

  -- A transaction history that is returned has one detail for each transaction of the answer to the
  -- address, and in every one of them the contract's address is a text that is not empty, whether the
  -- transaction has a contract or not. The print of an address is never empty.
  pub get_transaction_history_contracts :
      (address api_key : Text) (details : List RawTxDetail)
      → ((a : Address) → e.print_address a ≢ [])
      → get_transaction_history e address api_key ≡ ok details
      → (a : Address) × (txs : List NormalTransaction) × (e.parse_address address ≡ some a)
        × (e.get_transactions api_key a ≡ some txs)
        × (length details ≡ length txs)
        × All HasContract details
  unfolding get_transaction_history
  get_transaction_history_contracts address api_key details prints done =
      elim (Bool-cases (e.new_client api_key)) [
        | inr none_made ↦ absurd (ground arith)
        | inl made ↦ elim (Option-cases (e.parse_address address)) [
          | inl bad ↦ absurd (ground arith)
          | inr (a, e1) ↦ elim (Option-cases (e.get_transactions api_key a)) [
            | inl down ↦ absurd (ground arith)
            | inr (txs, e2) ↦
                let same : map (from_normal e) txs ≡ details = ground arith in
                (
                  a,
                  txs,
                  e1,
                  e2,
                  subst (λ ds. length ds ≡ length txs) same (length-map txs),
                  subst (All HasContract) same (map-HasContract txs prints),
                )
          ]
        ]
      ]
