-- ===== src/Bindings/Client/Signing/Asked.antt =====
-- What the wallet is asked when a transaction is signed for C++, and what C++ gets.
use play_cpp_sdk.Prelude.{
  ◌-◌, ◌<◌, Option, ◌≡◌, sym, subst, none, some, List, [], ◌∷◌, arith, Option-cases, inl, inr,
}
use mathlib.Core.Option
use play_cpp_sdk.Prelude.Text.{Text, Bytes, codes}
use play_cpp_sdk.Rust.Effect.{M, Result, ok, err, panic, continue-eq-ok}
use play_cpp_sdk.Rust.Decimal.{u64_mod}
use play_cpp_sdk.Hex.{Hex}
use play_cpp_sdk.V1.Protocol.{Address}
use play_cpp_sdk.V1.Crypto.{Ciphers}
use play_cpp_sdk.V1.Context.{Serde, World}
use play_cpp_sdk.V1.Client.{Client, request, wrapped}
use play_cpp_sdk.V1.Client
use play_cpp_sdk.Middleware.{Ethers, WcError, TxObject, tx_object, receiver, get_field, quantity}
use play_cpp_sdk.Middleware
use play_cpp_sdk.Middleware.Signatures.{Holds, sign_transaction_ok}
use play_cpp_sdk.Middleware.Fields.{
  tx_object_tells, gas_field, nonce_field, value_field, chain_id_field,
}
use play_cpp_sdk.Bindings.Transactions.{
  WalletConnectTxCommon, WalletConnectTxEip155, TransactionRequest, Parsers, eip155_request,
  eip155_request_drops_chain_id,
}
use play_cpp_sdk.Bindings.Client.{Holder, after}
use play_cpp_sdk.Bindings.Client.Signing.{
  Transactions, Contracts, ContractAction, Exchange, sign_typed_tx, sign_encoded,
  sign_eip155_transaction, construct, prepare, get_signed_tx_raw_bytes, sign_contract_transaction,
}
use play_cpp_sdk.Bindings.Client.Signing.Prepared.{IsLawful}

after_ok :
    {E A : Type 0} (c : Client) (r : World × Result E A) (s' : Holder) (a : A)
    → after c r ≡ (s', ok a)
    → (w' : World) × (r ≡ (w', ok a))
after_ok c (w, ok b) s' a h = (w, ground arith)
after_ok c (w, err e) s' a h = absurd (ground arith)
after_ok c (w, panic) s' a h = absurd (ground arith)

module _ {Tx Signature Approval Transfer : Type 0} (serde : Serde) (ciphers : Ciphers)
    (e : Ethers Signature) (h : Hex) (t : Transactions Tx Signature) (p : Parsers)
    (contracts : Contracts Tx Approval Transfer) (x : Exchange) where
  -- The client's request.
  abbrev pub ask : Text → List TxObject → M World WcError Bytes
  unfolding request
  ask method params w =
      wrapped serde ciphers
        (request serde ciphers x.write x.read_bytes x.await x.iv x.random method params w)

  -- The bytes are a transaction encoded with a signature of the wallet, which was asked for that of the
  -- transaction's own object, behind the resolution of the receiver if that is a name.
  abbrev pub SignedByWallet : Client → Tx → Address → Bytes → Type 0
  SignedByWallet c tx address bytes =
      (obj : TxObject) × (answer : Bytes) × (signature : Signature) × (w1 : World) × (w' : World)
      × (tx_object e h x.resolve_name (some address) (t.view tx) c.connection ≡ (w1, ok obj))
      × (ask (codes "eth_signTransaction") (obj ∷ []) w1 ≡ (w', ok answer))
      × Holds e h answer signature
      × (bytes ≡ t.rlp_signed tx signature)

  pub sign_encoded_ok :
      (tx : Tx) (address : Address) (c : Client) (s' : Holder) (bytes : Bytes)
      → sign_encoded serde ciphers e h t p contracts x tx address (some c) ≡ (s', ok bytes)
      → SignedByWallet c tx address bytes
  unfolding sign_encoded sign_typed_tx Client.sign_transaction request
  sign_encoded_ok tx address c s' bytes done =
      let (s1, signature, signed, rest) =
        continue-eq-ok (sign_typed_tx serde ciphers e h t p contracts x tx address (some c)) _
          done in
      let (w', answered) =
        after_ok c
          (Client.sign_transaction serde ciphers e h x.resolve_name x.write x.read_bytes x.await
            x.iv x.random (t.view tx) address c.connection)
          s1 signature signed in
      let (w1, obj, answer, made, requested, holds) =
        sign_transaction_ok e h x.resolve_name ask (t.view tx) address c.connection w' signature
          answered in
      (obj, answer, signature, w1, w', made, requested, holds, ground arith)

  -- An address is its own receiver: no name is resolved.
  unresolved :
      (to : Option Address) (w w1 : World) (told : Option Text)
      → receiver e h x.resolve_name (Option.map Middleware.address to) w ≡ (w1, ok told)
      → w ≡ w1
  unresolved none w w1 told done = ground arith
  unresolved (some a) w w1 told done = ground arith

  asked_before :
      (params : List TxObject) (w w1 : World) (answered : World × Result WcError Bytes)
      → w ≡ w1
      → ask (codes "eth_signTransaction") params w1 ≡ answered
      → ask (codes "eth_signTransaction") params w ≡ answered
  asked_before params w w1 answered same asked =
      subst (λ v. ask (codes "eth_signTransaction") params v ≡ answered) (sym same) asked

  told_parts :
      (l : IsLawful t) (from : Address) (tx : TransactionRequest) (w w1 : World) (obj : TxObject)
      → tx_object e h x.resolve_name (some from) (t.view (t.eip1559 tx)) w ≡ (w1, ok obj)
      → (w ≡ w1)
        × (get_field (codes "gas") obj ≡ Option.map (quantity e h) tx.gas)
        × (get_field (codes "nonce") obj ≡ Option.map (quantity e h) tx.nonce)
        × (get_field (codes "value") obj ≡ Option.map (quantity e h) tx.value)
        × (get_field (codes "chainId") obj ≡ Option.map (quantity e h) tx.chain_id)
  told_parts l from tx w w1 obj made =
      let (price, view) = l.view-eip1559 tx in
      let seen =
        subst (λ v. tx_object e h x.resolve_name (some from) v w ≡ (w1, ok obj)) view made in
      let (to, resolved, tells, all) =
        tx_object_tells e h x.resolve_name (some from) _ w w1 obj seen in
      (
        unresolved tx.to w w1 to resolved,
        tells gas_field,
        tells nonce_field,
        tells value_field,
        tells chain_id_field,
      )

  -- A transaction that is signed from its parts: the wallet is asked for the signature of one object, which
  -- has the gas, the nonce and the amount of the request that the parts make, and no chain id, whatever
  -- chain id below the largest `u64` was asked for; what is returned is the transaction encoded with
  -- the signature that the wallet's answer holds.
  pub sign_eip155_transaction_asks :
      (userinfo : WalletConnectTxEip155) (address : Address) (c : Client) (s' : Holder)
      (bytes : Bytes)
      → IsLawful t
      → userinfo.common.chainid < u64_mod - 1
      → sign_eip155_transaction serde ciphers e h t p contracts x userinfo address (some c)
        ≡ (s', ok bytes)
      → (tx : TransactionRequest) × (eip155_request p userinfo ≡ some tx)
        × ((obj : TxObject) × (answer : Bytes) × (signature : Signature) × (w' : World) × (ask
                (codes "eth_signTransaction")
                (obj ∷ [])
                c.connection
              ≡ (w', ok answer))
            × Holds e h answer signature
            × (bytes ≡ t.rlp_signed (t.eip1559 tx) signature)
            × (get_field (codes "gas") obj ≡ Option.map (quantity e h) tx.gas)
            × (get_field (codes "nonce") obj ≡ Option.map (quantity e h) tx.nonce)
            × (get_field (codes "value") obj ≡ Option.map (quantity e h) tx.value)
            × (get_field (codes "chainId") obj ≡ none))
  unfolding sign_eip155_transaction
  sign_eip155_transaction_asks userinfo address c s' bytes l small done =
      elim (Option-cases (eip155_request p userinfo)) [
        | inl bad ↦ absurd (ground arith)
        | inr (tx, built) ↦
            let dropped = (eip155_request_drops_chain_id p userinfo tx small built).0 in
            let signed : sign_encoded serde ciphers e h t p contracts x (t.eip1559 tx) address
                  (some c)
                ≡ (s', ok bytes) =
              ground arith in
            let (obj, answer, signature, w1, w', made, requested, holds, encoded) =
              sign_encoded_ok (t.eip1559 tx) address c s' bytes signed in
            let (unchanged, gas_told, nonce_told, value_told, chain_told) =
              told_parts l address tx c.connection w1 obj made in
            let at_start : ask (codes "eth_signTransaction") (obj ∷ []) c.connection
                ≡ (w', ok answer) =
              asked_before (obj ∷ []) c.connection w1 (w', ok answer) unchanged requested in
            (
              tx,
              built,
              (
                obj,
                answer,
                signature,
                w',
                at_start,
                holds,
                encoded,
                gas_told,
                nonce_told,
                value_told,
                ground arith,
              ),
            )
      ]

  -- A contract's transaction that is signed is the one that the action's text describes, built for the
  -- chain id and prepared with the arguments; it is returned encoded with the signature that the
  -- wallet gave for the object of exactly this transaction.
  pub sign_contract_transaction_ok :
      (contract_action : Text) (common : WalletConnectTxCommon) (address : Address) (c : Client)
      (s' : Holder) (bytes : Bytes)
      → sign_contract_transaction serde ciphers e h t p contracts x contract_action common address
          (some c)
        ≡ (s', ok bytes)
      → (action : ContractAction Approval Transfer) × (typedtx : Tx) × (tx : Tx)
        × (contracts.read_action contract_action ≡ some action)
        × (construct serde ciphers e h t p contracts x common action ≡ some typedtx)
        × (prepare t p common address typedtx ≡ some tx)
        × SignedByWallet c tx address bytes
  unfolding sign_contract_transaction get_signed_tx_raw_bytes
  sign_contract_transaction_ok contract_action common address c s' bytes done =
      elim (Option-cases (contracts.read_action contract_action)) [
        | inl bad ↦ absurd (ground arith)
        | inr (action, e1) ↦
            elim (Option-cases (construct serde ciphers e h t p contracts x common action)) [
              | inl bad ↦ absurd (ground arith)
              | inr (typedtx, e2) ↦ elim (Option-cases (prepare t p common address typedtx)) [
                | inl bad ↦ absurd (ground arith)
                | inr (tx, e3) ↦ (
                  action,
                  typedtx,
                  tx,
                  e1,
                  e2,
                  e3,
                  sign_encoded_ok tx address c s' bytes (ground arith),
                )
              ]
            ]
      ]
