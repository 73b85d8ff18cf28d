-- ===== src/Bindings/Pay.antt =====
-- extra-cpp-bindings/src/pay.rs, and the payment functions of extra-cpp-bindings/src/lib.rs. A number of the
-- JSON text is that text; the HTTP request, with its answer read as JSON, is an argument.
pub mod Form
use play_cpp_sdk.Prelude.{
  ℕ, Bool, true, false, Option, none, some, List, [], ◌∷◌, ◌++◌, if◌then◌else◌, unwrap_or,
}
use play_cpp_sdk.Prelude.Text.{Text, text_eq, codes}
use play_cpp_sdk.Rust.Effect.{Result, ok, err, panic}
use play_cpp_sdk.Rust.Decimal.{to_text}
use play_cpp_sdk.V1.Protocol.{Value}

pub record CryptoPayErrorObject : Type 0 where
  pub error_type : Text
  pub code : Text
  pub error_message : Option Text
  pub param : Option Text

pub record CurrentInboundFund : Type 0 where
  pub id : Text
  pub txn_id : Text
  pub deposit_address : Text
  pub inbound_fund_request_id : Text
  pub currency : Text
  pub amount : Text
  pub status : Text
  pub confirmed : Bool
  pub mismatched_reason : Option Text
  pub created_at : Text
  pub txn_created_at : Text
  pub from_address : Text
  pub rating : Text
  pub tx_index : Text
  pub block_number : ℕ
  pub updated_at : Text
  pub meta : List (Text × Value)
  pub payer_id : Text
  pub rebound_ids : List Text
  pub is_within_threshold : Bool
  pub coin_from : Text

pub record PayLaterInstallment : Type 0 where
  pub repay_date : Text
  pub repay_amount : Text
  pub currency : Text

pub record CryptoPayObject : Type 0 where
  pub id : Text
  pub original_amount : Option Text
  pub amount : Text
  pub amount_refunded : Text
  pub created : ℕ
  pub cashback_rate : Option Text
  pub crypto_currency : Text
  pub crypto_amount : Text
  pub currency : Text
  pub customer_id : Option Text
  pub customer_provided_info : Option (List (Text × Value))
  pub data_url : Option Text
  pub payment_url : Text
  pub return_url : Text
  pub cancel_url : Text
  pub description : Option Text
  pub live_mode : Bool
  pub metadata : Option (List (Text × Value))
  pub order_id : Option Text
  pub recipient : Text
  pub refunded : Bool
  pub status : Text
  pub time_window : Option ℕ
  pub remaining_time : Option Text
  pub resource_type : Option Value
  pub resource_id : Option Value
  pub resource : Option Value
  pub merchant_avatar_url : Option Text
  pub settled_at : Option ℕ
  pub expired : Option Bool
  pub enable_onchain_payment : Option Bool
  pub onchain_enabled : Option Bool
  pub deposit_address : Option Text
  pub current_inbound_fund : Option CurrentInboundFund
  pub refresh_disabled : Option Bool
  pub ncw_connections : Option (List Text)
  pub network_cost : Option Text
  pub defi_swap_transaction : Option Value
  pub sub_deposit_addresses : Option (List (Text × Text))
  pub captured : Option Bool
  pub payment_source : Option Text
  pub payment_type : Option Text
  pub qr_code : Option Text
  pub experimental_features : Option (List Text)
  pub sub_merchant_id : Option Value
  pub expired_at : Option ℕ
  pub pay_later_installments : Option (List PayLaterInstallment)
  pub pay_later_qr_code : Option Text
  pub pay_method : Option Text
  pub allow_pay_later : Option Bool
  pub amount_in_usd : Option Text
  pub amount_in_usdc : Option Text

pub data ResponseData : Type 0 where
  success : CryptoPayObject → ResponseData
  failure : CryptoPayErrorObject → ResponseData

-- `GameSdkError`, as far as a payment meets it; the first is an error of the request or of its JSON.
pub data PayError : Type 0 where
  reqwest : PayError
  crypto_pay_error : CryptoPayErrorObject → PayError

-- What the getters of the C++ class return.
pub record OptionalArguments : Type 0 where
  pub description : Text
  pub metadata : Text
  pub order_id : Text
  pub return_url : Text
  pub cancel_url : Text
  pub sub_merchant_id : Text
  pub onchain_allowed : Bool
  pub expired_at : ℕ

-- The part of a payment that the caller gets.
pub record CryptoComPaymentResponse : Type 0 where
  pub id : Text
  pub main_app_qr_code : Text
  pub onchain_deposit_address : Text
  pub base_amount : Text
  pub currency : Text
  pub expiration : ℕ
  pub status : Text

-- `if !text.is_empty() { data.push((key, text)); }`
abbrev pub unless_empty : Text → Text → List (Text × Text)
unless_empty key [] = []
unless_empty key (c ∷ s) = (key, c ∷ s) ∷ []

-- The form of a new payment.
unfoldable pub payment_form : Text → Text → OptionalArguments → List (Text × Text)
payment_form base_unit_amount currency args =
    let expired_at = to_text args.expired_at in
    (codes "amount", base_unit_amount)
      ∷ (codes "currency", currency)
      ∷ unless_empty (codes "description") args.description
    ++ (unless_empty (codes "metadata") args.metadata
        ++ (unless_empty (codes "order_id") args.order_id
            ++ (unless_empty (codes "return_url") args.return_url
                ++ (unless_empty (codes "cancel_url") args.cancel_url
                    ++ (unless_empty (codes "sub_merchant_id") args.sub_merchant_id
                        ++ ((
                          codes "onchain_allowed",
                          (if args.onchain_allowed then codes "true" else codes "false"),
                        )
                            ∷ (if text_eq expired_at (codes "0")
                                then []
                                else (codes "expired_at", expired_at) ∷ [])))))))

unfoldable pub answer : Option ResponseData → Result PayError CryptoPayObject
answer none = err reqwest
answer (some (failure error)) = err (crypto_pay_error error)
answer (some (success resp)) = ok resp

-- The argument is the request to `https://pay.crypto.com/api/payments` with a key and a form.
unfoldable pub create_payment_object :
    (Text → List (Text × Text) → Option ResponseData)
    → Text
    → Text
    → Text
    → OptionalArguments
    → Result PayError CryptoPayObject
unfolding payment_form answer
create_payment_object post api_key base_unit_amount currency args =
    answer (post api_key (payment_form base_unit_amount currency args))

-- The argument is the request to a URL with a key.
unfoldable pub get_payment_object :
    (Text → Text → Option ResponseData) → Text → Text → Result PayError CryptoPayObject
unfolding answer
get_payment_object fetch api_key payment_id =
    answer (fetch api_key (codes "https://pay.crypto.com/api/payments/" ++ payment_id))

-- `impl From<CryptoPayObject> for CryptoComPaymentResponse`.
unfoldable pub from_object : CryptoPayObject → CryptoComPaymentResponse
from_object obj = record {
  id = obj.id;
  main_app_qr_code = unwrap_or obj.qr_code [];
  onchain_deposit_address = unwrap_or obj.deposit_address [];
  base_amount = obj.amount;
  currency = obj.currency;
  expiration = unwrap_or obj.expired_at 0;
  status = obj.status;
}

abbrev pub converted : Result PayError CryptoPayObject → Result PayError CryptoComPaymentResponse
unfolding from_object
converted (ok obj) = ok (from_object obj)
converted (err e) = err e
converted panic = panic

unfoldable pub create_payment :
    (Text → List (Text × Text) → Option ResponseData)
    → Text
    → Text
    → Text
    → OptionalArguments
    → Result PayError CryptoComPaymentResponse
unfolding create_payment_object
create_payment post api_key base_unit_amount currency args =
    converted (create_payment_object post api_key base_unit_amount currency args)

unfoldable pub get_payment :
    (Text → Text → Option ResponseData) → Text → Text → Result PayError CryptoComPaymentResponse
unfolding get_payment_object
get_payment fetch api_key payment_id = converted (get_payment_object fetch api_key payment_id)
