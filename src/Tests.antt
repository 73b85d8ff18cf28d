-- ===== src/Tests.antt =====
-- The crates as small concrete functions, for the tests of every part.
use play_cpp_sdk.Prelude.{
  ℕ, ◌+◌, ◌-◌, ◌*◌, ◌/◌, ◌%◌, ◌≡◌, refl, Option, none, some, [], ◌∷◌, if◌then◌else◌, ltb, ◌==◌,
  ==_self, length, arith,
}
use play_cpp_sdk.Prelude.Text.{Text, Bytes}
use play_cpp_sdk.Hex.{Hex, IsBytes, IsLossless}

abbrev digit : ℕ → ℕ
digit d = if ltb d 10 then b'0' + d else b'a' + d - 10

abbrev undigit : ℕ → ℕ
undigit c = if ltb c b'a' then c - b'0' else c + 10 - b'a'

abbrev pub hex_encode : Bytes → Text
hex_encode [] = []
hex_encode (b ∷ s) = digit (b / 16) ∷ digit (b % 16) ∷ hex_encode s

abbrev cons_byte : ℕ → Option Bytes → Option Bytes
cons_byte b none = none
cons_byte b (some s) = some (b ∷ s)

abbrev pub hex_decode : Text → Option Bytes
hex_decode [] = some []
hex_decode (x ∷ []) = none
hex_decode (x ∷ y ∷ s) = cons_byte (undigit x * 16 + undigit y) (hex_decode s)

pub hex_decode-encode : (b : Bytes) → IsBytes b → hex_decode (hex_encode b) ≡ some b
hex_decode-encode [] small = refl
hex_decode-encode (b ∷ s) (small, rest) =
    let e : undigit (digit (b / 16)) * 16 + undigit (digit (b % 16)) ≡ b = ground arith in
    rw (hex_decode-encode s rest, e) refl

abbrev of_length : ℕ → Option Bytes → Option Bytes
of_length n none = none
of_length n (some s) = if length s == n then some s else none

abbrev pub hex : Hex
hex = record {
  encode_crate = hex_encode;
  decode_crate = hex_decode;
  decode_to_slice = λ s n. of_length n (hex_decode s);
}

pub hex-IsLossless : IsLossless hex
hex-IsLossless = record {
  decode-encode = hex_decode-encode;
  slice-encode = λ b small. rw (hex_decode-encode b small, ==_self (length b)) refl;
}
