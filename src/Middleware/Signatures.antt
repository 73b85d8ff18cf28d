-- ===== src/Middleware/Signatures.antt =====
-- Which answers of the wallet become a signature.
use play_cpp_sdk.Prelude.{
  ℕ, ◌≤◌, ◌≡◌, refl, some, List, [], ◌∷◌, arith, leb, ◌⊎◌, inl, inr, Option-cases, Bool-cases,
}
use play_cpp_sdk.Prelude.Text.{Text, Bytes, codes}
use play_cpp_sdk.Rust.Effect.{M, ok, continue-eq-ok}
use play_cpp_sdk.Hex.{Hex}
use play_cpp_sdk.V1.Protocol.{Address}
use play_cpp_sdk.Middleware.{
  TypedTransaction, Ethers, WcError, TxObject, tx_object, read_signature, sign_transaction,
}

module _ {Signature : Type 0} (e : Ethers Signature) (h : Hex) where
  -- How an encoded transaction holds a signature: encoded by its type, with a first byte up to 0x7f, or in
  -- the old form, with a first byte from 0xc0 to 0xfe.
  abbrev pub Holds : Bytes → Signature → Type 0
  Holds bytes signature =
      (first_byte : ℕ) × (rest : Bytes) × (bytes ≡ first_byte ∷ rest)
      × (((first_byte ≤ 127) × (e.decode_signed bytes ≡ some signature))
          ⊎ ((192 ≤ first_byte)
              × (first_byte ≤ 254)
              × (e.decode_signed_rlp bytes ≡ some signature)))

  read_signature_ok :
      {S : Type 0} (bytes : Bytes) (s s' : S) (signature : Signature)
      → read_signature e h bytes s ≡ (s', ok signature)
      → (s ≡ s') × Holds bytes signature
  unfolding read_signature
  read_signature_ok [] s s' signature done = absurd (ground arith)
  read_signature_ok (b ∷ rest) s s' signature done =
      elim (Option-cases (e.decode_signed (b ∷ rest))) [
        | inl untyped ↦ elim (Option-cases (e.decode_signed_rlp (b ∷ rest))) [
          | inl unsigned ↦ absurd (ground arith)
          | inr (x, old) ↦
              (ground arith, (b, rest, refl, inr (ground arith, ground arith, ground arith)))
        ]
        | inr (x, typed) ↦ elim (Bool-cases (leb b 127)) [
          | inl low ↦ (ground arith, (b, rest, refl, inl (ground arith, ground arith)))
          | inr high ↦ elim (Option-cases (e.decode_signed_rlp (b ∷ rest))) [
            | inl unsigned ↦ absurd (ground arith)
            | inr (y, old) ↦
                (ground arith, (b, rest, refl, inr (ground arith, ground arith, ground arith)))
          ]
        ]
      ]

  -- A signature is returned only if the transaction has an object, the request to sign that one object, in
  -- the state behind the resolution of the receiver's name, was answered by an encoded transaction,
  -- and that holds the signature; reading it changes nothing.
  pub sign_transaction_ok :
      {S : Type 0} (resolve_name : Text → M S WcError Address)
      (request : Text → List TxObject → M S WcError Bytes) (tx : TypedTransaction) (from : Address)
      (s s' : S) (signature : Signature)
      → sign_transaction e h resolve_name request tx from s ≡ (s', ok signature)
      → (s1 : S) × (obj : TxObject) × (bytes : Bytes) × (tx_object e h resolve_name (some from) tx s
          ≡ (s1, ok obj))
        × (request (codes "eth_signTransaction") (obj ∷ []) s1 ≡ (s', ok bytes))
        × Holds bytes signature
  unfolding sign_transaction
  sign_transaction_ok resolve_name request tx from s s' signature done =
      let (s1, obj, made, rest) =
        continue-eq-ok (tx_object e h resolve_name (some from) tx s) _ done in
      let (s2, bytes, asked, read) =
        continue-eq-ok (request (codes "eth_signTransaction") (obj ∷ []) s1) (read_signature e h)
          rest in
      let (same, holds) = read_signature_ok bytes s2 s' signature read in
      (s1, obj, bytes, made, rw same at asked, holds)
