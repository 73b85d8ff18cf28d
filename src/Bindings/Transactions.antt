-- ===== src/Bindings/Transactions.antt =====
-- extra-cpp-bindings/src/walletconnect.rs: the transaction that a request for a signature describes.
-- Parsing addresses and decimal numbers of 256 bits is code of the crate `ethers`, a parameter.
use play_cpp_sdk.Prelude.{
  ℕ, ◌-◌, ◌<◌, ◌≡◌, Option, none, some, [], ◌∷◌, arith, if◌then◌else◌, ◌==◌, Option-cases, inl, inr,
}
use play_cpp_sdk.Prelude.Text.{Text, Bytes}
use play_cpp_sdk.Rust.Decimal.{u64_mod}
use play_cpp_sdk.V1.Protocol.{Address}

pub record WalletConnectTxCommon : Type 0 where
  pub gas_limit : Text
  pub gas_price : Text
  pub nonce : Text
  pub chainid : ℕ
  pub web3api_url : Text

pub record WalletConnectTxEip155 : Type 0 where
  pub to : Text
  pub value : Text
  pub contents : Bytes
  pub common : WalletConnectTxCommon

-- `Eip1559TransactionRequest` of the crate `ethers`, in the fields that the code sets.
pub record TransactionRequest : Type 0 where
  pub to : Option Address
  pub contents : Option Bytes
  pub gas : Option ℕ
  pub max_priority_fee_per_gas : Option ℕ
  pub max_fee_per_gas : Option ℕ
  pub nonce : Option ℕ
  pub chain_id : Option ℕ
  pub value : Option ℕ

-- `Address::from_str` and `U256::from_dec_str`.
pub record Parsers : Type 0 where
  pub parse_address : Text → Option Address
  pub from_dec_str : Text → Option ℕ

-- `!x` on a `u64`: every bit is flipped.
unfoldable pub bitwise_not : ℕ → ℕ
bitwise_not x = u64_mod - 1 - x

infixl 5 ◌>>=◌
abbrev pub ◌>>=◌ : {A B : Type 0} → Option A → (A → Option B) → Option B
none >>= f = none
some a >>= f = f a

abbrev empty_request : TransactionRequest
empty_request = record {
  to = none;
  contents = none;
  gas = none;
  max_priority_fee_per_gas = none;
  max_fee_per_gas = none;
  nonce = none;
  chain_id = none;
  value = none;
}

-- A text that is not empty has to parse.
abbrev pub optional : {A : Type 0} → (Text → Option A) → Text → Option (Option A)
optional parse [] = some none
optional parse (c ∷ s) = (do a ← parse (c ∷ s); some (some a))

abbrev unless_empty : Bytes → Option Bytes
unless_empty [] = none
unless_empty (b ∷ s) = some (b ∷ s)

module _ (p : Parsers) where
  -- The request that both `sign_eip155_transaction_blocking` and `send_eip155_transaction_blocking`
  -- build; `none` where a text does not parse.
  unfoldable pub eip155_request : WalletConnectTxEip155 → Option TransactionRequest
  unfolding bitwise_not
  eip155_request userinfo = do
    to ← optional p.parse_address userinfo.to
    gas ← optional p.from_dec_str userinfo.common.gas_limit
    gas_price ← optional p.from_dec_str userinfo.common.gas_price
    nonce ← optional p.from_dec_str userinfo.common.nonce
    let chain_id =
        if bitwise_not userinfo.common.chainid == 0 then some userinfo.common.chainid else none
    value ← optional p.from_dec_str userinfo.value
    some (record {
      to = to;
      contents = unless_empty userinfo.contents;
      gas = gas;
      max_priority_fee_per_gas = gas_price;
      max_fee_per_gas = gas_price;
      nonce = nonce;
      chain_id = chain_id;
      value = value;
    })

  -- A request that is built has the receiver, the gas, the nonce and the amount that were asked for, each
  -- missing where its text is empty, and the price as both of its fees; but it has no chain id, whatever
  -- chain id below the largest `u64` was asked for.
  pub eip155_request_drops_chain_id :
      (userinfo : WalletConnectTxEip155) (tx : TransactionRequest)
      → userinfo.common.chainid < u64_mod - 1
      → eip155_request userinfo ≡ some tx
      → (tx.chain_id ≡ none)
        × (optional p.parse_address userinfo.to ≡ some tx.to)
        × (optional p.from_dec_str userinfo.common.gas_limit ≡ some tx.gas)
        × (optional p.from_dec_str userinfo.common.gas_price ≡ some tx.max_fee_per_gas)
        × (optional p.from_dec_str userinfo.common.gas_price ≡ some tx.max_priority_fee_per_gas)
        × (optional p.from_dec_str userinfo.common.nonce ≡ some tx.nonce)
        × (optional p.from_dec_str userinfo.value ≡ some tx.value)
  unfolding eip155_request bitwise_not
  eip155_request_drops_chain_id userinfo tx small built =
      elim (Option-cases (optional p.parse_address userinfo.to)) [
        | inl bad ↦ absurd (ground arith)
        | inr (to, e1) ↦ elim (Option-cases (optional p.from_dec_str userinfo.common.gas_limit)) [
          | inl bad ↦ absurd (ground arith)
          | inr (gas, e2) ↦
              elim (Option-cases (optional p.from_dec_str userinfo.common.gas_price)) [
                | inl bad ↦ absurd (ground arith)
                | inr (price, e3) ↦
                    elim (Option-cases (optional p.from_dec_str userinfo.common.nonce)) [
                      | inl bad ↦ absurd (ground arith)
                      | inr (nonce, e4) ↦
                          elim (Option-cases (optional p.from_dec_str userinfo.value)) [
                            | inl bad ↦ absurd (ground arith)
                            | inr (value, e5) ↦ (
                              ground arith,
                              ground arith,
                              ground arith,
                              ground arith,
                              ground arith,
                              ground arith,
                              ground arith,
                            )
                          ]
                    ]
              ]
        ]
      ]
