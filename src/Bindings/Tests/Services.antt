-- ===== src/Bindings/Tests/Services.antt =====
-- Runs of the payment form, the explorer's queries, the picture of a code and the cached registry.
use play_cpp_sdk.Prelude.{
  ℕ, ◌+◌, ◌*◌, ◌<◌, ◌≡◌, refl, true, false, Option, none, some, List, [], ◌∷◌, ◌++◌, arith, All,
  length, get_elem?, if◌then◌else◌,
}
use play_cpp_sdk.Prelude.Text.{Text, codes, text_eq}
use play_cpp_sdk.Rust.Effect.{ok}
use play_cpp_sdk.Rust.Decimal.{parse_u64}
use play_cpp_sdk.Middleware.{get_field}
use play_cpp_sdk.V1.Protocol.{Url, I64, pos, negsuc}
use play_cpp_sdk.Bindings.Pay.{OptionalArguments, payment_form}
use play_cpp_sdk.Bindings.Pay.Form.{Field, key_of, told_of, IsField, payment_form_tells}
use play_cpp_sdk.Bindings.Explorer.{
  RawTxDetail, RawBlockScoutTransfer, RawResponse, by_address, transfers_url, get_token_transfers,
  details_of, try_from,
}
use play_cpp_sdk.Bindings.Explorer.Transfers.{Picks, get_token_transfers-Picks}
use play_cpp_sdk.Bindings.History.{NormalTransaction, Etherscan, number, from_normal}
use play_cpp_sdk.Bindings.Qrcode.{QrCode, WalletQrcode, light_byte, generate_qrcode}
use play_cpp_sdk.Bindings.Qrcode.Pixels.{module_at, generate_qrcode_pixels}
use play_cpp_sdk.Bindings.Registry.{Registry, Listing, mobile_platform}
use play_cpp_sdk.Bindings.Registry.Cache.{
  Files, Environment, load, check_wallet, get_wallet, get_all_wallets, filter_wallets, fetch_new,
  write_cache, write_file,
}
use play_cpp_sdk.Bindings.Registry.Cache.Trips.{IsReadBack, fetched_then_cached}

abbrev arguments : OptionalArguments
arguments = record {
  description = codes "a game";
  metadata = [];
  order_id = codes "7";
  return_url = [];
  cancel_url = [];
  sub_merchant_id = [];
  onchain_allowed = true;
  expired_at = 0;
}

payment_form_tells_example :
    ((f : Field)
      → get_field (key_of f) (payment_form (codes "250") (codes "USD") arguments)
        ≡ told_of (codes "250") (codes "USD") arguments f)
    × All IsField (payment_form (codes "250") (codes "USD") arguments)
payment_form_tells_example = payment_form_tells (codes "250") (codes "USD") arguments (omega arith)

abbrev transfer : Text → RawBlockScoutTransfer
transfer block_number = record {
  block_hash = [];
  block_number = block_number;
  confirmations = [];
  contract_address = [];
  cumulative_gas_used = [];
  from = codes "0x1";
  gas = [];
  gas_price = [];
  gas_used = [];
  hash = codes "0xa";
  input = [];
  log_index = [];
  nonce = [];
  time_stamp = codes "9";
  to = codes "0x2";
  token_decimal = [];
  token_name = [];
  token_symbol = [];
  transaction_index = [];
  value = codes "5";
}

-- An answer to every URL, with a transfer that has no block yet.
abbrev fetch : Url → Option (RawResponse RawBlockScoutTransfer)
fetch url = some (record {
  message = codes "OK";
  result = transfer (codes "12") ∷ transfer [] ∷ [];
  status = codes "1";
})

abbrev detail : RawTxDetail
detail = record {
  hash = codes "0xa";
  to_address = codes "0x2";
  from_address = codes "0x1";
  value = codes "5";
  block_no = 12;
  timestamp = codes "9";
  contract_address = [];
}

abbrev requested : Url
requested = codes "b?module=account&action=tokentx&address=0x1"

get_token_transfers-Picks_example :
    (url : Url) × (resp : RawResponse RawBlockScoutTransfer) × (transfers_url
        (codes "b")
        (codes "0x1")
        []
        by_address
      ≡ some url)
    × (fetch url ≡ some resp)
    × ((requested ∷ []) ≡ [] ++ url ∷ [])
    × Picks resp.result (detail ∷ [])
unfolding get_token_transfers transfers_url details_of try_from parse_u64
get_token_transfers-Picks_example =
    get_token_transfers-Picks fetch (codes "b") (codes "0x1") [] by_address [] (requested ∷ [])
      (detail ∷ []) refl

abbrev plain : NormalTransaction
plain = record {
  block_number = number 3;
  time_stamp = codes "9";
  hash = some (1 ∷ []);
  from = none;
  to = some (2 ∷ []);
  value = 4;
  contract_address = none;
}

abbrev etherscan : Etherscan
etherscan = record {
  print_hash = λ b. b;
  print_address = λ a. codes "0x" ++ a;
  print_number = λ n. n ∷ [];
  parse_address = λ t. some t;
  new_client = λ api_key. true;
  get_transactions = λ api_key a. some (plain ∷ []);
  get_erc20_events = λ api_key q. none;
  get_erc721_events = λ api_key q. none;
}

abbrev history : List RawTxDetail
history = from_normal etherscan plain ∷ []

-- One dark module.
abbrev dot : QrCode
dot = record { size = 1; get_module = λ x y. elim x [ pos n ↦ true | negsuc n ↦ false ] }

abbrev encodes : Text → Option QrCode
encodes t = some dot

generate_qrcode_pixels_example :
    (code : WalletQrcode) × (generate_qrcode encodes (codes "wc:") ≡ ok code)
    × (code.qrcode ≡ (codes "wc:"))
    × (code.size ≡ dot.size + 4)
    × (length code.image ≡ code.size * code.size)
    × ((x y : ℕ)
        → x < code.size
        → y < code.size
        → get_elem? code.image (y * code.size + x)
          ≡ some (light_byte (dot.get_module (module_at x) (module_at y))))
generate_qrcode_pixels_example = generate_qrcode_pixels dot encodes (codes "wc:") refl (omega arith)

-- The text of a registry without wallets.
abbrev write_fields : List (Text × Listing) → I64 → I64 → Option Text
write_fields [] (pos n) (pos m) = some (n ∷ m ∷ [])
write_fields [] (pos n) (negsuc m) = none
write_fields [] (negsuc n) t = none
write_fields (l ∷ ls) n t = none

abbrev empty_registry : ℕ → ℕ → Registry
empty_registry n m = record { listings = []; count = pos n; total = pos m }

abbrev read_fields : Text → Option Registry
read_fields [] = none
read_fields (n ∷ []) = none
read_fields (n ∷ m ∷ s) = some (empty_registry n m)

abbrev environment : Environment
environment = record {
  fetched = some (2 ∷ 2 ∷ []);
  read_registry = read_fields;
  write_registry = λ r. write_fields r.listings r.count r.total;
  bundled = [];
  is_writable = λ p. true;
}

fields_read_back :
    (listings : List (Text × Listing)) (count total : I64) (text : Text)
    → write_fields listings count total ≡ some text
    → read_fields text ≡ some (record { listings = listings; count = count; total = total })
fields_read_back [] (pos n) (pos m) text e = ground arith
fields_read_back [] (pos n) (negsuc m) text e = absurd (ground arith)
fields_read_back [] (negsuc n) t text e = absurd (ground arith)
fields_read_back (l ∷ ls) n t text e = absurd (ground arith)

environment-IsReadBack : IsReadBack environment
environment-IsReadBack r text e = fields_read_back r.listings r.count r.total text e

abbrev no_files : Files
no_files p = none

abbrev cached_files : Files
cached_files p = if text_eq p (codes "f") then some (2 ∷ 2 ∷ []) else no_files p

fetched_then_cached_example :
    (check_wallet environment false (codes "f") (codes "a") mobile_platform no_files
      ≡ check_wallet environment true (codes "f") (codes "a") mobile_platform cached_files)
    × (get_wallet environment false (codes "f") (codes "a") no_files
        ≡ get_wallet environment true (codes "f") (codes "a") cached_files)
    × (get_all_wallets environment false (codes "f") no_files
        ≡ get_all_wallets environment true (codes "f") cached_files)
    × (filter_wallets environment false (codes "f") mobile_platform no_files
        ≡ filter_wallets environment true (codes "f") mobile_platform cached_files)
    × ((other : Text) → text_eq other (codes "f") ≡ false → cached_files other ≡ no_files other)
unfolding load fetch_new write_cache write_file
fetched_then_cached_example =
    fetched_then_cached environment (codes "f") no_files cached_files (empty_registry 2 2)
      (codes "a") mobile_platform (λ e. absurd (ground arith)) environment-IsReadBack refl
