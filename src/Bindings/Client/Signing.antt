-- ===== src/Bindings/Client/Signing.antt =====
-- The signatures and the transactions of extra-cpp-bindings/src/walletconnect.rs. A typed transaction of the
-- crate `ethers` is seen through its accessors and changed by its setters; contracts' transactions
-- are built by the crate `defi-wallet-core-common`.
pub mod Prepared
pub mod Asked
pub mod Absent
use play_cpp_sdk.Prelude.{ℕ, Option, none, some, List, if◌then◌else◌, ◌==◌}
use mathlib.Core.Option
use play_cpp_sdk.Prelude.Text.{Text, Bytes}
use play_cpp_sdk.Rust.Effect.{M, ok, err, ◌>>=◌, ◌>>◌, pure, or_fail}
use play_cpp_sdk.Hex.{Hex}
use play_cpp_sdk.V1.Protocol.{Value, Address, Request}
use play_cpp_sdk.V1.Crypto.{Ciphers}
use play_cpp_sdk.V1.Context.{Serde, World}
use play_cpp_sdk.V1.Socket.{Await}
use play_cpp_sdk.V1.Client
use play_cpp_sdk.Middleware.{TypedTransaction, Ethers, WcError, TxObject}
use play_cpp_sdk.Bindings.Transactions.{
  WalletConnectTxCommon, WalletConnectTxEip155, TransactionRequest, Parsers, bitwise_not, optional,
  eip155_request,
}
use play_cpp_sdk.Bindings.Client.{
  Holder, BindingError, no_client, bad_text, client_failed, with_client,
}

-- What the code does with a `TypedTransaction`.
pub record Transactions (Tx Signature : Type 0) : Type 0 where
  pub view : Tx → TypedTransaction
  pub eip1559 : TransactionRequest → Tx
  pub set_nonce : ℕ → Tx → Tx
  pub set_from : Address → Tx → Tx
  pub set_chain_id : ℕ → Tx → Tx
  pub set_gas : ℕ → Tx → Tx
  pub set_gas_price : ℕ → Tx → Tx
  pub rlp_signed : Tx → Signature → Bytes

pub data ContractAction (Approval Transfer : Type 0) : Type 0 where
  contract_approval : Approval → ContractAction Approval Transfer
  contract_transfer : Transfer → ContractAction Approval Transfer

-- The JSON texts, and the transactions of contracts, by a chain id and the URL of a node.
pub record Contracts (Tx Approval Transfer : Type 0) : Type 0 where
  pub read_request : Text → Option TransactionRequest
  pub read_action : Text → Option (ContractAction Approval Transfer)
  pub construct_approval : Approval → ℕ → Text → Option Tx
  pub construct_transfer : Transfer → ℕ → Text → Option Tx

-- What belongs to one request of the client: the resolution of a name, which sends requests of its own,
-- the serialiser of the request, the readers of the response, the wait, and what is drawn.
pub record Exchange : Type 0 where
  pub resolve_name : Text → M World WcError Address
  pub write : Request (List TxObject) → Option Text
  pub read_bytes : Value → Option Bytes
  pub read_hash : Value → Option Bytes
  pub await : Await
  pub iv : Bytes
  pub random : ℕ

abbrev pub when_some : {Tx : Type 0} → (ℕ → Tx → Tx) → Option ℕ → Tx → Tx
when_some set none tx = tx
when_some set (some n) tx = set n tx

-- `if self.client.is_none() { bail!("no client") }`.
abbrev pub ensure_client : M Holder BindingError (Unit {0})
ensure_client none = (none, err no_client)
ensure_client (some c) = (some c, ok tt)

module _ {Tx Signature : Type 0} (t : Transactions Tx Signature) (p : Parsers) where
  -- The lines that `get_signed_tx_raw_bytes` and `get_sent_tx_raw_bytes` begin with; `none` where a text
  -- does not parse. Unlike the other texts, that of the nonce has to be a number.
  unfoldable pub prepare : WalletConnectTxCommon → Address → Tx → Option Tx
  unfolding bitwise_not
  prepare common signeraddress typedtx = elim (p.from_dec_str common.nonce) [
    | none ↦ none
    | some mynonce ↦ elim (optional p.from_dec_str common.gas_limit) [
      | none ↦ none
      | some gas ↦
          Option.map
            (λ gas_price.
              let tx1 = if mynonce == 0 then typedtx else t.set_nonce mynonce typedtx in
              let tx2 = t.set_from signeraddress tx1 in
              let tx3 =
                if bitwise_not common.chainid == 0
                then t.set_chain_id common.chainid tx2
                else tx2 in
              when_some t.set_gas_price gas_price (when_some t.set_gas gas tx3))
            (optional p.from_dec_str common.gas_price)
    ]
  ]

module _ {Tx Signature Approval Transfer : Type 0} (serde : Serde) (ciphers : Ciphers)
    (e : Ethers Signature) (h : Hex) (t : Transactions Tx Signature) (p : Parsers)
    (contracts : Contracts Tx Approval Transfer) (x : Exchange) where
  unfoldable pub sign_typed_tx : Tx → Address → M Holder BindingError Signature
  unfolding Client.sign_transaction
  sign_typed_tx tx address = with_client (λ c.
      Client.sign_transaction serde ciphers e h x.resolve_name x.write x.read_bytes x.await x.iv
        x.random (t.view tx) address)

  unfoldable pub send_typed_tx : Tx → Address → M Holder BindingError Bytes
  unfolding Client.send_transaction
  send_typed_tx tx address = with_client (λ c.
      Client.send_transaction serde ciphers e h x.resolve_name x.write x.read_hash x.await x.iv
        x.random (some address) (t.view tx))

  -- Signing a transaction, and its encoding with the signature.
  unfoldable pub sign_encoded : Tx → Address → M Holder BindingError Bytes
  unfolding sign_typed_tx
  sign_encoded tx address = do sig ← sign_typed_tx tx address; pure (t.rlp_signed tx sig)

  unfoldable pub sign_eip155_transaction :
      WalletConnectTxEip155 → Address → M Holder BindingError Bytes
  unfolding eip155_request sign_encoded
  sign_eip155_transaction userinfo address = do
    ensure_client
    tx ← or_fail (eip155_request p userinfo) bad_text
    sign_encoded (t.eip1559 tx) address

  unfoldable pub send_eip155_transaction :
      WalletConnectTxEip155 → Address → M Holder BindingError Bytes
  unfolding eip155_request send_typed_tx
  send_eip155_transaction userinfo address = do
    ensure_client
    tx ← or_fail (eip155_request p userinfo) bad_text
    send_typed_tx (t.eip1559 tx) address

  unfoldable pub get_signed_tx_raw_bytes :
      Address → Tx → WalletConnectTxCommon → M Holder BindingError Bytes
  unfolding prepare sign_encoded
  get_signed_tx_raw_bytes signeraddress typedtx common = do
    tx ← or_fail (prepare t p common signeraddress typedtx) bad_text
    sign_encoded tx signeraddress

  unfoldable pub get_sent_tx_raw_bytes :
      Address → Tx → WalletConnectTxCommon → M Holder BindingError Bytes
  unfolding prepare send_typed_tx
  get_sent_tx_raw_bytes signeraddress typedtx common = do
    tx ← or_fail (prepare t p common signeraddress typedtx) bad_text
    send_typed_tx tx signeraddress

  unfoldable pub sign_transaction : Text → Address → M Holder BindingError Bytes
  unfolding sign_encoded
  sign_transaction eip1559_transaction_request address = do
    ensure_client
    tx ← or_fail (contracts.read_request eip1559_transaction_request) bad_text
    sign_encoded (t.eip1559 tx) address

  unfoldable pub send_transaction : Text → Address → M Holder BindingError Bytes
  unfolding send_typed_tx
  send_transaction eip1559_transaction_request address = do
    ensure_client
    tx ← or_fail (contracts.read_request eip1559_transaction_request) bad_text
    send_typed_tx (t.eip1559 tx) address

  abbrev pub construct : WalletConnectTxCommon → ContractAction Approval Transfer → Option Tx
  construct common (contract_approval approval) =
      contracts.construct_approval approval common.chainid common.web3api_url
  construct common (contract_transfer transfer) =
      contracts.construct_transfer transfer common.chainid common.web3api_url

  unfoldable pub sign_contract_transaction :
      Text → WalletConnectTxCommon → Address → M Holder BindingError Bytes
  unfolding get_signed_tx_raw_bytes
  sign_contract_transaction contract_action common address = do
    ensure_client
    action ← or_fail (contracts.read_action contract_action) bad_text
    typedtx ← or_fail (construct common action) client_failed
    get_signed_tx_raw_bytes address typedtx common

  unfoldable pub send_contract_transaction :
      Text → WalletConnectTxCommon → Address → M Holder BindingError Bytes
  unfolding get_sent_tx_raw_bytes
  send_contract_transaction contract_action common address = do
    ensure_client
    action ← or_fail (contracts.read_action contract_action) bad_text
    typedtx ← or_fail (construct common action) client_failed
    get_sent_tx_raw_bytes address typedtx common
