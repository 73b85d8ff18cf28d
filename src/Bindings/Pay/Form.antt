-- ===== src/Bindings/Pay/Form.antt =====
-- The form of a new payment: what the service is told of the caller's arguments.
use play_cpp_sdk.Prelude.{
  ℕ, ◌≡◌, refl, Bool, Option, none, some, List, [], ◌∷◌, ◌++◌, arith, if◌then◌else◌, inl, inr, All,
  All-append, Bool-cases, ◌<◌, ◌==◌,
}
use play_cpp_sdk.Prelude.Text.{Text, text_eq, text_eq_iff, codes}
use play_cpp_sdk.Rust.Decimal.{u64_mod, to_text, to_text-zero, parse_u64-to_text}
use play_cpp_sdk.Middleware.{get_field}
use play_cpp_sdk.Bindings.Pay.{OptionalArguments, unless_empty, payment_form}

-- The parts of a form.
pub data Field : Type 0 where
  amount_field currency_field description_field metadata_field order_id_field return_url_field
        cancel_url_field sub_merchant_id_field onchain_allowed_field expired_at_field :
      Field

abbrev pub key_of : Field → Text
key_of amount_field = codes "amount"
key_of currency_field = codes "currency"
key_of description_field = codes "description"
key_of metadata_field = codes "metadata"
key_of order_id_field = codes "order_id"
key_of return_url_field = codes "return_url"
key_of cancel_url_field = codes "cancel_url"
key_of sub_merchant_id_field = codes "sub_merchant_id"
key_of onchain_allowed_field = codes "onchain_allowed"
key_of expired_at_field = codes "expired_at"

-- A text that is given.
abbrev pub given : Text → Option Text
given [] = none
given (c ∷ s) = some (c ∷ s)

-- A time is given unless it is 0.
abbrev pub given_time : ℕ → Option Text
given_time n = if n == 0 then none else some (to_text n)

abbrev pub flag_text : Bool → Text
flag_text b = if b then codes "true" else codes "false"

-- What the service is told of a part.
abbrev pub told_of : Text → Text → OptionalArguments → Field → Option Text
told_of base_unit_amount currency args amount_field = some base_unit_amount
told_of base_unit_amount currency args currency_field = some currency
told_of base_unit_amount currency args description_field = given args.description
told_of base_unit_amount currency args metadata_field = given args.metadata
told_of base_unit_amount currency args order_id_field = given args.order_id
told_of base_unit_amount currency args return_url_field = given args.return_url
told_of base_unit_amount currency args cancel_url_field = given args.cancel_url
told_of base_unit_amount currency args sub_merchant_id_field = given args.sub_merchant_id
told_of base_unit_amount currency args onchain_allowed_field = some (flag_text args.onchain_allowed)
told_of base_unit_amount currency args expired_at_field = given_time args.expired_at

or_else : Option Text → Option Text → Option Text
or_else none d = d
or_else (some v) d = some v

get_field-unless_empty :
    (key k v : Text) (rest : List (Text × Text))
    → get_field key (unless_empty k v ++ rest)
      ≡ (if text_eq k key then or_else (given v) (get_field key rest) else get_field key rest)
unfolding get_field or_else
get_field-unless_empty key k [] rest = ground arith
get_field-unless_empty key k (c ∷ s) rest = refl

time_entry : ℕ → List (Text × Text)
time_entry n = if text_eq (to_text n) (codes "0") then [] else (codes "expired_at", to_text n) ∷ []

to_text_zero : (n : ℕ) → n < u64_mod → text_eq (to_text n) (codes "0") ≡ (n == 0)
unfolding text_eq
to_text_zero n fits = elim (Bool-cases (text_eq (to_text n) (codes "0"))) [
  | inl same ↦
      let e = (text_eq_iff (to_text n) (codes "0")).0 same in
      let back = parse_u64-to_text n fits in
      let zero_text = to_text-zero in
      let zero_back = parse_u64-to_text 0 (omega arith) in ground arith
  | inr differs ↦ elim (Bool-cases (n == 0)) [
    | inl z ↦ ground (arith, to_text-zero)
    | inr nz ↦ ground arith
  ]
]

get_field-time_entry :
    (n : ℕ)
    → n < u64_mod
    → (key : Text)
    → get_field key (time_entry n)
      ≡ (if text_eq (codes "expired_at") key then given_time n else none)
unfolding get_field time_entry
get_field-time_entry n fits key =
    let same = to_text_zero n fits in
    elim (Bool-cases (n == 0)) [ inl zero_time ↦ ground arith | inr later ↦ ground arith ]

or_else-none : (v : Option Text) → or_else v none ≡ v
unfolding or_else
or_else-none none = refl
or_else-none (some v) = refl

module _ (base_unit_amount currency : Text) (args : OptionalArguments) where
  -- All entries behind each other.
  form : List (Text × Text)
  form =
      (codes "amount", base_unit_amount)
        ∷ (codes "currency", currency)
        ∷ unless_empty (codes "description") args.description
      ++ (unless_empty (codes "metadata") args.metadata
          ++ (unless_empty (codes "order_id") args.order_id
              ++ (unless_empty (codes "return_url") args.return_url
                  ++ (unless_empty (codes "cancel_url") args.cancel_url
                      ++ (unless_empty (codes "sub_merchant_id") args.sub_merchant_id
                          ++ ((codes "onchain_allowed", flag_text args.onchain_allowed)
                              ∷ time_entry args.expired_at))))))

  form_told :
      args.expired_at < u64_mod
      → (f : Field) → get_field (key_of f) form ≡ told_of base_unit_amount currency args f
  unfolding form text_eq get_field
  form_told fits amount_field = refl
  form_told fits currency_field = refl
  form_told fits description_field =
      simp (get_field-unless_empty, get_field-time_entry args.expired_at fits, or_else-none)
  form_told fits metadata_field =
      simp (get_field-unless_empty, get_field-time_entry args.expired_at fits, or_else-none)
  form_told fits order_id_field =
      simp (get_field-unless_empty, get_field-time_entry args.expired_at fits, or_else-none)
  form_told fits return_url_field =
      simp (get_field-unless_empty, get_field-time_entry args.expired_at fits, or_else-none)
  form_told fits cancel_url_field =
      simp (get_field-unless_empty, get_field-time_entry args.expired_at fits, or_else-none)
  form_told fits sub_merchant_id_field =
      simp (get_field-unless_empty, get_field-time_entry args.expired_at fits, or_else-none)
  form_told fits onchain_allowed_field = simp get_field-unless_empty
  form_told fits expired_at_field =
      simp (get_field-unless_empty, get_field-time_entry args.expired_at fits)

-- An entry whose key is that of a part.
abbrev pub IsField : Text × Text → Type 0
IsField p = (f : Field) × (p.0 ≡ key_of f)

unless_empty-All : (f : Field) (v : Text) → All IsField (unless_empty (key_of f) v)
unless_empty-All f [] = tt
unless_empty-All f (c ∷ s) = ((f, refl), tt)

time_entry-All : (n : ℕ) → All IsField (time_entry n)
unfolding time_entry
time_entry-All n = elim (Bool-cases (text_eq (to_text n) (codes "0"))) [
  | inl zero_time ↦ rw zero_time tt
  | inr later ↦ rw later ((expired_at_field, refl), tt)
]

joined-All :
    (f : Field) (v : Text) (rest : List (Text × Text))
    → All IsField rest
    → All IsField (unless_empty (key_of f) v ++ rest)
joined-All f v rest h = All-append IsField _ rest (unless_empty-All f v) h

form-All :
    (base_unit_amount currency : Text) (args : OptionalArguments)
    → All IsField (form base_unit_amount currency args)
unfolding form
form-All base_unit_amount currency args = (
  (amount_field, refl),
  (
    (currency_field, refl),
    joined-All description_field args.description _ (
        joined-All metadata_field args.metadata _ (
          joined-All order_id_field args.order_id _ (
            joined-All return_url_field args.return_url _ (
              joined-All cancel_url_field args.cancel_url _ (
                joined-All sub_merchant_id_field args.sub_merchant_id _
                  ((onchain_allowed_field, refl), time_entry-All args.expired_at)))))),
  ),
)

-- The form of a new payment has the amount, the currency and, always, whether payment on the chain is
-- allowed, each text of the optional arguments that is not empty, and the time of expiry unless that is 0, in
-- decimal; each stands under its own key exactly as it was given, and no other key occurs.
pub payment_form_tells :
    (base_unit_amount currency : Text) (args : OptionalArguments)
    → args.expired_at < u64_mod
    → ((f : Field)
        → get_field (key_of f) (payment_form base_unit_amount currency args)
          ≡ told_of base_unit_amount currency args f)
      × All IsField (payment_form base_unit_amount currency args)
unfolding payment_form form time_entry
payment_form_tells base_unit_amount currency args fits =
    (form_told base_unit_amount currency args fits, form-All base_unit_amount currency args)
