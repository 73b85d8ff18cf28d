-- ===== src/Bindings/Client/Signing/Prepared.antt =====
-- What the arguments of a contract's transaction change in it.
use play_cpp_sdk.Prelude.{ℕ, ◌≡◌, Option, none, some, if◌then◌else◌, ◌==◌}
use play_cpp_sdk.V1.Protocol.{Address}
use play_cpp_sdk.Middleware.{address}
use play_cpp_sdk.Bindings.Transactions.{TransactionRequest, Parsers}
use play_cpp_sdk.Bindings.Client.Signing.{Transactions, when_some}
use mathlib.Core.Option

-- A setter changes what its own accessor returns, and a request has the fields that it was built with. The
-- gas price of a typed transaction comes from two fees, in a way that is left open here: what setting
-- it, or a request with such fees, makes of it is any price.
pub record IsLawful {Tx Signature : Type 0} (t : Transactions Tx Signature) : Type 0 where
  pub view-eip1559 :
      (r : TransactionRequest)
      → (price : Option ℕ) × (t.view (t.eip1559 r) ≡ record {
        to = Option.map address r.to;
        contents = r.contents;
        gas = r.gas;
        gas_price = price;
        value = r.value;
        nonce = r.nonce;
        chain_id = r.chain_id;
      })
  pub view-set_nonce :
      (n : ℕ) (tx : Tx) → t.view (t.set_nonce n tx) ≡ record (t.view tx) { nonce = some n }
  pub view-set_from : (a : Address) (tx : Tx) → t.view (t.set_from a tx) ≡ t.view tx
  pub view-set_chain_id :
      (n : ℕ) (tx : Tx) → t.view (t.set_chain_id n tx) ≡ record (t.view tx) { chain_id = some n }
  pub view-set_gas :
      (n : ℕ) (tx : Tx) → t.view (t.set_gas n tx) ≡ record (t.view tx) { gas = some n }
  pub view-set_gas_price :
      (n : ℕ) (tx : Tx)
      → (price : Option ℕ) × (t.view (t.set_gas_price n tx)
          ≡ record (t.view tx) { gas_price = price })

abbrev pub or_else : Option ℕ → Option ℕ → Option ℕ
or_else none d = d
or_else (some n) d = some n

module _ {Tx Signature : Type 0} (t : Transactions Tx Signature) (p : Parsers) where
  -- What the arguments make of a transaction before its gas price is set.
  abbrev pub unpriced : Address → ℕ → Option ℕ → Tx → Tx
  unpriced signeraddress n gas typedtx =
      when_some t.set_gas gas
        (t.set_from signeraddress (if n == 0 then typedtx else t.set_nonce n typedtx))
