-- ===== src/Rust/Decimal.antt =====
-- `u64` in decimal: `to_string` and `str::parse::<u64>`.
use play_cpp_sdk.Prelude.{
  ℕ, zero, suc, ◌+◌, ◌-◌, ◌*◌, ◌/◌, ◌%◌, ◌^◌, ◌≤◌, ◌<◌, ◌≡◌, refl, ◌∙◌, ◌||◌, [], ◌∷◌, Option, none,
  some, arith, ltb, ◌==◌, if◌then◌else◌, All, inl, inr, Bool-cases,
}
use play_cpp_sdk.Prelude.Text.{Text}
use play_cpp_sdk.Rust.Split.{Lacks}

abbrev pub u64_mod : ℕ
u64_mod = 2 ^ 64

abbrev pow10 : ℕ → ℕ
pow10 zero = 1
pow10 (suc f) = 10 * pow10 f

-- The digits of `n` in front of `out`; one digit for each unit of fuel.
spell : ℕ → ℕ → Text → Text
spell zero n out = out
spell (suc f) n out =
    let more = spell f (n / 10) ((b'0' + n % 10) ∷ out) in
    if ltb n 10 then (b'0' + n) ∷ out else more

-- Twenty digits hold every `u64`.
unfoldable pub to_text : ℕ → Text
unfolding spell
to_text n = spell 20 n []

-- The digits are read from the left; `n * 10 + d` is refused where it leaves the type.
scan : Text → ℕ → Option ℕ
scan [] n = some n
scan (c ∷ s) n =
    let m = n * 10 + (c - b'0') in
    if ltb c b'0' || ltb b'9' c then none else if ltb m u64_mod then scan s m else none

scan_some : Text → Option ℕ
unfolding scan
scan_some [] = none
scan_some (c ∷ s) = scan (c ∷ s) 0

-- One sign `+` is allowed in front.
unfoldable pub parse_u64 : Text → Option ℕ
unfolding scan_some
parse_u64 [] = none
parse_u64 (c ∷ s) = if c == b'+' then scan_some s else scan_some (c ∷ s)

abbrev IsDigit : ℕ → Type 0
IsDigit c = (b'0' ≤ c) × (c ≤ b'9')

scan-spell :
    (f n : ℕ) (out : Text) → n < pow10 f → n < u64_mod → scan (spell f n out) 0 ≡ scan out n
unfolding scan spell
scan-spell zero n out h fits = ground arith
scan-spell (suc f) n out h fits = elim (Bool-cases (ltb n 10)) [
  | inl small ↦ rw small (ground arith)
  | inr large ↦ rw large (
      rw (scan-spell f (n / 10) ((b'0' + n % 10) ∷ out) (ground arith) (ground arith))
        (ground arith))
]

spell_digits : (f n : ℕ) (out : Text) → All IsDigit out → All IsDigit (spell f n out)
unfolding spell
spell_digits zero n out h = h
spell_digits (suc f) n out h = elim (Bool-cases (ltb n 10)) [
  | inl small ↦ rw small ((ground arith, ground arith), h)
  | inr large ↦
      rw large (spell_digits f (n / 10) ((b'0' + n % 10) ∷ out) ((omega arith, omega arith), h))
]

spell-cons : (f n : ℕ) (out : Text) → (c : ℕ) × (s : Text) × (spell (suc f) n out ≡ c ∷ s)
unfolding spell
spell-cons zero n out = elim (Bool-cases (ltb n 10)) [
  | inl small ↦ (b'0' + n, out, rw small)
  | inr large ↦ (b'0' + n % 10, out, rw large)
]
spell-cons (suc f) n out = elim (Bool-cases (ltb n 10)) [
  | inl small ↦ (b'0' + n, out, rw small)
  | inr large ↦ let (c, s, e) = spell-cons f (n / 10) ((b'0' + n % 10) ∷ out) in (c, s, rw large e)
]

digits-Lacks : (c : ℕ) (s : Text) → b'9' < c → All IsDigit s → Lacks c s
digits-Lacks c [] h d = tt
digits-Lacks c (x ∷ s) h (hx, hs) = (omega arith, digits-Lacks c s h hs)

-- A printed number holds no character above the digits, such as `:` or `@`.
pub to_text-Lacks : (c n : ℕ) → b'9' < c → Lacks c (to_text n)
unfolding to_text
to_text-Lacks c n h = digits-Lacks c (spell 20 n []) h (spell_digits 20 n [] tt)

parse_digits : (s : Text) {c : ℕ} {r : Text} → s ≡ c ∷ r → All IsDigit s → parse_u64 s ≡ scan s 0
unfolding parse_u64
parse_digits [] e d = cc
parse_digits (x ∷ s) e (hx, hs) = ground arith

-- Every `u64` is read back from its print.
pub parse_u64-to_text : (n : ℕ) → n < u64_mod → parse_u64 (to_text n) ≡ some n
unfolding to_text scan
parse_u64-to_text n h =
    let (c, s, e) = spell-cons 19 n [] in
    parse_digits (spell 20 n []) e (spell_digits 20 n [] tt) ∙ scan-spell 20 n [] (omega arith) h

pub parse_u64-empty : parse_u64 [] ≡ none
unfolding parse_u64
parse_u64-empty = refl

pub to_text-zero : to_text 0 ≡ b'0' ∷ []
unfolding to_text
to_text-zero = refl

scan_bound : (s : Text) (n r : ℕ) → n < u64_mod → scan s n ≡ some r → r < u64_mod
unfolding scan
scan_bound [] n r h e = ground arith
scan_bound (c ∷ s) n r h e = ground (arith, scan_bound s (n * 10 + (c - b'0')) r)

scan_some_bound : (s : Text) (r : ℕ) → scan_some s ≡ some r → r < u64_mod
unfolding scan_some
scan_some_bound [] r e = cc
scan_some_bound (c ∷ s) r e = scan_bound (c ∷ s) 0 r (omega arith) e

-- What is read fits the type.
pub parse_u64_bound : (s : Text) (r : ℕ) → parse_u64 s ≡ some r → r < u64_mod
unfolding parse_u64
parse_u64_bound [] r e = cc
parse_u64_bound (c ∷ s) r e = ground (arith, scan_some_bound s r, scan_some_bound (c ∷ s) r)
