-- ===== src/Hex.antt =====
-- wallet-connect/src/hex.rs and wallet-connect/src/serialization.rs: the crate `hex` is a parameter, with what
-- its documentation promises as `IsLossless`, and so is the JSON of a type.
use play_cpp_sdk.Prelude.{◌<◌, ℕ, ◌≡◌, ◌≢◌, refl, Option, none, some, [], ◌∷◌, All, length, arith}
use play_cpp_sdk.Prelude.Text.{Text, Bytes}

abbrev pub IsBytes : Bytes → Type 0
IsBytes = All (λ b. b < 256)

-- `hex::encode`, `hex::decode` and `hex::decode_to_slice` into a buffer of the given length.
pub record Hex : Type 0 where
  pub encode_crate : Bytes → Text
  pub decode_crate : Text → Option Bytes
  pub decode_to_slice : Text → ℕ → Option Bytes

-- What is encoded is decoded again, also into a buffer of the right length.
pub record IsLossless (h : Hex) : Type 0 where
  pub decode-encode : (b : Bytes) → IsBytes b → h.decode_crate (h.encode_crate b) ≡ some b
  pub slice-encode :
      (b : Bytes) → IsBytes b → h.decode_to_slice (h.encode_crate b) (length b) ≡ some b

module _ (h : Hex) where
  unfoldable pub encode : Bytes → Text
  encode b = h.encode_crate b

  unfoldable pub decode_mut : Text → ℕ → Option Bytes
  decode_mut bytes len = h.decode_to_slice bytes len

  unfoldable pub decode : Text → Option Bytes
  decode bytes = h.decode_crate bytes

  -- `hexstring::serialize` and `hexstring::deserialize`: the text is the JSON string's content.
  unfoldable pub serialize_hexstring : Bytes → Text
  unfolding encode
  serialize_hexstring bytes = encode bytes

  unfoldable pub deserialize_hexstring : Text → Option Bytes
  unfolding decode
  deserialize_hexstring string = decode string

  -- A byte vector survives its field in a JSON message.
  pub deserialize-serialize_hexstring :
      (b : Bytes)
      → IsLossless h
      → IsBytes b
      → deserialize_hexstring (serialize_hexstring b) ≡ some b
  unfolding deserialize_hexstring serialize_hexstring
  deserialize-serialize_hexstring b l hb = l.decode-encode b hb

-- `serde_json::to_string` and `serde_json::from_str` of a type.
pub record JsonText (T : Type 0) : Type 0 where
  pub write : T → Option Text
  pub read : Text → Option T

-- A value is read back from its text, which is not empty.
pub record IsReadBack {T : Type 0} (j : JsonText T) : Type 0 where
  pub read-write : (value : T) (text : Text) → j.write value ≡ some text → j.read text ≡ some value
  pub write_nonempty : (value : T) → j.write value ≢ some []

module _ {T : Type 0} (j : JsonText T) where
  -- `jsonstring::serialize` and `jsonstring::deserialize`: the text is the JSON string's content, and
  -- `none` an error.
  unfoldable pub serialize_jsonstring : Option T → Option Text
  serialize_jsonstring none = some []
  serialize_jsonstring (some value) = j.write value

  unfoldable pub deserialize_jsonstring : Text → Option (Option T)
  deserialize_jsonstring [] = some none
  deserialize_jsonstring (c ∷ s) = elim (j.read (c ∷ s)) [
    | none ↦ none
    | some value ↦ some (some value)
  ]

  -- An optional value survives its field in a JSON message, a missing one as the empty text, if a value that
  -- is there is read back from its own text, which is not empty.
  pub deserialize-serialize_jsonstring :
      (value : Option T) (text : Text)
      → IsReadBack j
      → serialize_jsonstring value ≡ some text
      → deserialize_jsonstring text ≡ some value
  unfolding serialize_jsonstring deserialize_jsonstring
  deserialize-serialize_jsonstring none [] l written = refl
  deserialize-serialize_jsonstring none (c ∷ s) l written = absurd (ground arith)
  deserialize-serialize_jsonstring (some v) [] l written = absurd (l.write_nonempty v written)
  deserialize-serialize_jsonstring (some v) (c ∷ s) l written =
      let back = l.read-write v (c ∷ s) written in ground arith
