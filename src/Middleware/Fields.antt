-- ===== src/Middleware/Fields.antt =====
-- The fields of the object that stands for a transaction in a request to the wallet.
use play_cpp_sdk.Prelude.{
  ◌≡◌, refl, Option, none, some, ◌++◌, arith, if◌then◌else◌, All, All-append, subst,
}
use mathlib.Core.Option
use play_cpp_sdk.Prelude.Text.{Text, text_eq, codes}
use play_cpp_sdk.Hex.{Hex}
use play_cpp_sdk.V1.Protocol.{Address}
use play_cpp_sdk.Rust.Effect.{M, ok, continue-eq-ok}
use play_cpp_sdk.Middleware.{
  TypedTransaction, Ethers, WcError, TxObject, get_field, optional_field, quantity, data_text,
  receiver, value_fields, tx_object,
}

-- The parts of a transaction that a wallet is told.
pub data Field : Type 0 where
  from_field to_field data_field gas_field gas_price_field value_field nonce_field chain_id_field :
      Field

abbrev pub key_of : Field → Text
key_of from_field = codes "from"
key_of to_field = codes "to"
key_of data_field = codes "data"
key_of gas_field = codes "gas"
key_of gas_price_field = codes "gasPrice"
key_of value_field = codes "value"
key_of nonce_field = codes "nonce"
key_of chain_id_field = codes "chainId"

module _ {Signature : Type 0} (e : Ethers Signature) (h : Hex) where
  -- What the wallet is told of a part, given the sender and the receiver.
  abbrev pub told_of : Option Address → Option Text → TypedTransaction → Field → Option Text
  told_of from to tx from_field = Option.map e.print_address from
  told_of from to tx to_field = to
  told_of from to tx data_field = some (data_text e h tx.contents)
  told_of from to tx gas_field = Option.map (quantity e h) tx.gas
  told_of from to tx gas_price_field = Option.map (quantity e h) tx.gas_price
  told_of from to tx value_field = Option.map (quantity e h) tx.value
  told_of from to tx nonce_field = Option.map (quantity e h) tx.nonce
  told_of from to tx chain_id_field = Option.map (quantity e h) tx.chain_id

or_else : Option Text → Option Text → Option Text
or_else none d = d
or_else (some v) d = some v

get_field-optional :
    (key k : Text) (v : Option Text) (rest : TxObject)
    → get_field key (optional_field k v ++ rest)
      ≡ (if text_eq k key then or_else v (get_field key rest) else get_field key rest)
unfolding get_field or_else
get_field-optional key k none rest = ground arith
get_field-optional key k (some v) rest = refl

get_field-last :
    (key k : Text) (v : Option Text)
    → get_field key (optional_field k v) ≡ (if text_eq k key then v else none)
unfolding get_field
get_field-last key k none = ground arith
get_field-last key k (some v) = refl

or_else-none : (v : Option Text) → or_else v none ≡ v
unfolding or_else
or_else-none none = refl
or_else-none (some v) = refl

ruleset lookups = (get_field-optional, get_field-last, or_else-none)

module _ {Signature : Type 0} (e : Ethers Signature) (h : Hex) (from : Option Address)
    (to : Option Text) (tx : TypedTransaction) where
  -- All fields behind each other.
  object : TxObject
  object =
      optional_field (codes "from") (Option.map e.print_address from)
      ++ (optional_field (codes "to") to ++ value_fields e h tx)

  object_told : (f : Field) → get_field (key_of f) object ≡ told_of e h from to tx f
  unfolding object text_eq get_field
  object_told from_field = simp lookups
  object_told to_field = simp lookups
  object_told data_field = simp lookups
  object_told gas_field = simp lookups
  object_told gas_price_field = simp lookups
  object_told value_field = simp lookups
  object_told nonce_field = simp lookups
  object_told chain_id_field = simp lookups

-- An entry whose key is that of a part.
abbrev pub IsField : Text × Text → Type 0
IsField p = (f : Field) × (p.0 ≡ key_of f)

optional-All : (f : Field) (v : Option Text) → All IsField (optional_field (key_of f) v)
optional-All f none = tt
optional-All f (some v) = ((f, refl), tt)

module _ {Signature : Type 0} (e : Ethers Signature) (h : Hex) where
  object-All :
      (from : Option Address) (to : Option Text) (tx : TypedTransaction)
      → All IsField (object e h from to tx)
  unfolding object
  object-All from to tx =
      All-append IsField _ _ (optional-All from_field (Option.map e.print_address from)) (
        All-append IsField _ _ (optional-All to_field to) (
          (data_field, refl),
          All-append IsField _ _ (optional-All gas_field (Option.map (quantity e h) tx.gas)) (
              All-append IsField _ _
                (optional-All gas_price_field (Option.map (quantity e h) tx.gas_price))
                (All-append IsField _ _
                  (optional-All value_field (Option.map (quantity e h) tx.value))
                  (All-append IsField _ _
                    (optional-All nonce_field (Option.map (quantity e h) tx.nonce))
                    (optional-All chain_id_field (Option.map (quantity e h) tx.chain_id))))),
        ))

  -- The object that stands for a transaction tells the wallet each of its parts under the part's own
  -- key, and a part that is missing under no key, but for the data, which are then empty; the
  -- receiver is the address, or what the name resolves to, and there is no object if it does not
  -- resolve; only the resolution changes the state. No other key occurs.
  pub tx_object_tells :
      {S : Type 0} (resolve_name : Text → M S WcError Address) (from : Option Address)
      (tx : TypedTransaction) (s s' : S) (obj : TxObject)
      → tx_object e h resolve_name from tx s ≡ (s', ok obj)
      → (to : Option Text) × (receiver e h resolve_name tx.to s ≡ (s', ok to))
        × ((f : Field) → get_field (key_of f) obj ≡ told_of e h from to tx f)
        × All IsField obj
  unfolding tx_object object
  tx_object_tells resolve_name from tx s s' obj made =
      let (s1, to, resolved, rest) = continue-eq-ok (receiver e h resolve_name tx.to s) _ made in
      let same : object e h from to tx ≡ obj = ground arith in
      (
        to,
        ground arith,
        λ f.
            subst (λ o. get_field (key_of f) o ≡ told_of e h from to tx f) same
              (object_told e h from to tx f),
        subst (All IsField) same (object-All from to tx),
      )
