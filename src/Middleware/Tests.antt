-- ===== src/Middleware/Tests.antt =====
-- A transaction and a small crate for transactions, and runs of what a wallet is asked for one.
use play_cpp_sdk.Prelude.{ℕ, ◌+◌, ◌≡◌, refl, Option, none, some, [], ◌∷◌, All}
use play_cpp_sdk.Prelude.Text.{Text, codes}
use play_cpp_sdk.Rust.Effect.{M, ok}
use play_cpp_sdk.Tests.{hex}
use play_cpp_sdk.V1.Protocol.{Address}
use play_cpp_sdk.Middleware.{
  TypedTransaction, Ethers, WcError, TxObject, name, receiver, tx_object, get_field, data_text,
}
use play_cpp_sdk.Middleware.Fields.{Field, key_of, told_of, IsField, tx_object_tells}

-- Hexadecimal digits for numbers below sixteen, and a signature that is the encoded transaction.
abbrev pub ethers : Ethers Text
ethers = record {
  print_address = λ a. a;
  lower_hex = λ n. (b'0' + n) ∷ [];
  decode_signed = λ b. some b;
  decode_signed_rlp = λ b. none;
}

abbrev pub transaction : TypedTransaction
transaction = record {
  to = some (name (codes "a.eth"));
  contents = none;
  gas = some 7;
  gas_price = none;
  value = some 0;
  nonce = none;
  chain_id = some 5;
}

abbrev sender : Address
sender = codes "0x1"

abbrev object : TxObject
object =
    (codes "from", codes "0x1")
    ∷ (codes "to", codes "a.eth")
    ∷ (codes "data", [])
    ∷ (codes "gas", codes "0x7")
    ∷ (codes "value", codes "0x0")
    ∷ (codes "chainId", codes "0x5")
    ∷ []

-- Each name is its own owner, and each resolution is counted.
abbrev resolve_name : Text → M ℕ WcError Address
resolve_name t n = (n + 1, ok t)

tx_object_tells_example :
    (to : Option Text) × (receiver ethers hex resolve_name transaction.to 0 ≡ (1, ok to))
    × ((f : Field)
        → get_field (key_of f) object ≡ told_of ethers hex (some sender) to transaction f)
    × All IsField object
unfolding tx_object data_text
tx_object_tells_example =
    tx_object_tells ethers hex resolve_name (some sender) transaction 0 1 object refl
