-- ===== src/Middleware.antt =====
-- `WCMiddleware` of wallet-connect/src/client.rs and of wallet-connect/src/v2/client.rs: what a wallet is
-- asked to sign or to send, and how a signature is read from its answer. The transaction is seen through
-- the accessors of the crate `ethers`; its printing and its decoding are parameters, and so are the
-- client's request and the resolution of a name.
pub mod Fields
pub mod Signatures
pub mod Tests
use play_cpp_sdk.Prelude.{ℕ, ◌&&◌, Option, none, some, List, [], ◌∷◌, ◌++◌, if◌then◌else◌, leb}
use mathlib.Core.Option
use play_cpp_sdk.Prelude.Text.{Text, Bytes, text_eq, codes}
use play_cpp_sdk.Rust.Effect.{M, ◌>>=◌, pure, fail, or_fail}
use play_cpp_sdk.Hex.{Hex}
use play_cpp_sdk.Hex
use play_cpp_sdk.V1.Protocol.{Address}

pub data NameOrAddress : Type 0 where
  name : Text → NameOrAddress
  address : Address → NameOrAddress

-- What the accessors of a `TypedTransaction` return.
pub record TypedTransaction : Type 0 where
  pub to : Option NameOrAddress
  pub contents : Option Bytes
  pub gas : Option ℕ
  pub gas_price : Option ℕ
  pub value : Option ℕ
  pub nonce : Option ℕ
  pub chain_id : Option ℕ

-- The crate `ethers`: an address and a number in hexadecimal digits, and the signature in a transaction
-- that is encoded by its type or in the old form.
pub record Ethers (Signature : Type 0) : Type 0 where
  pub print_address : Address → Text
  pub lower_hex : ℕ → Text
  pub decode_signed : Bytes → Option Signature
  pub decode_signed_rlp : Bytes → Option Signature

-- `WCError`, without its texts.
pub data WcError : Type 0 where
  name_unresolved request_failed empty_rlp undecodable : WcError

-- A `HashMap` whose keys are inserted once each.
abbrev pub TxObject : Type 0
TxObject = List (Text × Text)

unfoldable pub get_field : Text → TxObject → Option Text
get_field key [] = none
get_field key ((k, v) ∷ obj) = if text_eq k key then some v else get_field key obj

-- `if let Some(x) = … { tx_obj.insert(key, format!("0x{x:x}")); }`
abbrev pub optional_field : Text → Option Text → TxObject
optional_field key none = []
optional_field key (some v) = (key, v) ∷ []

module _ {Signature : Type 0} (e : Ethers Signature) (h : Hex) where
  abbrev pub quantity : ℕ → Text
  quantity n = codes "0x" ++ e.lower_hex n

  abbrev pub data_text : Option Bytes → Text
  unfolding Hex.encode
  data_text none = []
  data_text (some bytes) = codes "0x" ++ Hex.encode h bytes

  -- The argument is `self.resolve_name`, which sends requests of its own.
  abbrev pub receiver :
      {S : Type 0} → (Text → M S WcError Address) → Option NameOrAddress → M S WcError (Option Text)
  receiver resolve_name none = pure none
  receiver resolve_name (some (address a)) = pure (some (e.print_address a))
  receiver resolve_name (some (name n)) = do a ← resolve_name n; pure (some (e.print_address a))

  -- The fields behind the receiver.
  abbrev pub value_fields : TypedTransaction → TxObject
  value_fields tx =
      (codes "data", data_text tx.contents)
        ∷ optional_field (codes "gas") (Option.map quantity tx.gas)
      ++ (optional_field (codes "gasPrice") (Option.map quantity tx.gas_price)
          ++ (optional_field (codes "value") (Option.map quantity tx.value)
              ++ (optional_field (codes "nonce") (Option.map quantity tx.nonce)
                  ++ optional_field (codes "chainId") (Option.map quantity tx.chain_id))))

  -- `tx_obj`: the sender is optional in `send_transaction`.
  unfoldable pub tx_object :
      {S : Type 0}
      → (Text → M S WcError Address)
      → Option Address
      → TypedTransaction
      → M S WcError TxObject
  tx_object resolve_name from tx = do
    to ← receiver resolve_name tx.to
    pure (
        optional_field (codes "from") (Option.map e.print_address from)
        ++ (optional_field (codes "to") to ++ value_fields tx))

  abbrev or_undecodable : {S : Type 0} → Option Signature → M S WcError Signature
  or_undecodable s = or_fail s undecodable

  -- The first byte says how the transaction is encoded.
  unfoldable pub read_signature : {S : Type 0} → Bytes → M S WcError Signature
  read_signature [] = fail empty_rlp
  read_signature (first_byte ∷ rest) =
      if leb first_byte 127
      then or_undecodable (e.decode_signed (first_byte ∷ rest))
      else if leb 192 first_byte && leb first_byte 254
      then or_undecodable (e.decode_signed_rlp (first_byte ∷ rest))
      else fail undecodable

  -- The second argument is `self.0.request(method, vec![tx_obj])`.
  unfoldable pub sign_transaction :
      {S : Type 0}
      → (Text → M S WcError Address)
      → (Text → List TxObject → M S WcError Bytes)
      → TypedTransaction
      → Address
      → M S WcError Signature
  unfolding tx_object read_signature
  sign_transaction resolve_name request tx from = do
    tx_obj ← tx_object resolve_name (some from) tx
    tx_bytes ← request (codes "eth_signTransaction") (tx_obj ∷ [])
    read_signature tx_bytes

  unfoldable pub send_transaction :
      {S TxHash : Type 0}
      → (Text → M S WcError Address)
      → (Text → List TxObject → M S WcError TxHash)
      → Option Address
      → TypedTransaction
      → M S WcError TxHash
  unfolding tx_object
  send_transaction resolve_name request default_sender tx = do
    tx_obj ← tx_object resolve_name default_sender tx
    request (codes "eth_sendTransaction") (tx_obj ∷ [])
