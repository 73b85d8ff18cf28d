-- ===== src/Bindings/Registry.antt =====
-- extra-cpp-bindings/src/wallectconnectregistry.rs: the registry of wallets. The ordered map of listings is
-- the list of its entries in their order.
pub mod Wallets
pub mod Cache
use play_cpp_sdk.Prelude.{
  ℕ, Bool, false, ◌||◌, not, Option, none, some, List, [], ◌∷◌, if◌then◌else◌, unwrap_or, is_empty,
}
use play_cpp_sdk.Prelude.Text.{Text, text_eq}
use play_cpp_sdk.V1.Protocol.{I64}
use play_cpp_sdk.Rust.Effect.{Result, ok, err, panic}

pub record ImageUrl : Type 0 where
  pub sm : Text
  pub md : Text
  pub lg : Text

-- Across the language border a platform is a byte: the last case is a byte without a name.
pub data Platform : Type 0 where
  mobile_platform desktop_platform : Platform
  other_platform : ℕ → Platform

pub record WalletEntry : Type 0 where
  pub id : Text
  pub name : Text
  pub image_url : ImageUrl
  pub mobile_native_link : Text
  pub mobile_universal_link : Text
  pub desktop_native_link : Text
  pub desktop_universal_link : Text

pub record Desktop : Type 0 where
  pub native : Option Text
  pub universal : Option Text

pub data AppType : Type 0 where
  hybrid wallet : AppType

pub data Sdk : Type 0 where
  sign_v1 sign_v2 auth_v1 : Sdk

pub record App : Type 0 where
  pub browser : Option Text
  pub ios : Option Text
  pub android : Option Text
  pub mac : Option Text
  pub windows : Option Text
  pub linux : Option Text

pub record Colors : Type 0 where
  pub primary : Option Text
  pub secondary : Option Text

pub record Metadata : Type 0 where
  pub short_name : Option Text
  pub colors : Colors

pub record Listing : Type 0 where
  pub id : Text
  pub name : Text
  pub description : Option Text
  pub homepage : Text
  pub chains : List Text
  pub versions : List Text
  pub sdks : List Sdk
  pub app_type : AppType
  pub image_id : Text
  pub image_url : ImageUrl
  pub app : App
  pub mobile : Desktop
  pub desktop : Desktop
  pub metadata : Metadata

pub record Registry : Type 0 where
  pub listings : List (Text × Listing)
  pub count : I64
  pub total : I64

-- `GameSdkError`, as far as the registry meets it.
pub data RegistryError : Type 0 where
  reqwest serde io invalid_wallet_id : RegistryError

abbrev has_link : Desktop → Bool
has_link d = not (is_empty (unwrap_or d.native [])) || not (is_empty (unwrap_or d.universal []))

unfoldable pub supports_platform : Listing → Platform → Bool
supports_platform l mobile_platform = has_link l.mobile
supports_platform l desktop_platform = has_link l.desktop
supports_platform l (other_platform b) = false

abbrev pub entry : Listing → WalletEntry
entry l = record {
  id = l.id;
  name = l.name;
  image_url = l.image_url;
  mobile_native_link = unwrap_or l.mobile.native [];
  mobile_universal_link = unwrap_or l.mobile.universal [];
  desktop_native_link = unwrap_or l.desktop.native [];
  desktop_universal_link = unwrap_or l.desktop.universal [];
}

abbrev pub find_listing : Text → List (Text × Listing) → Option Listing
find_listing id [] = none
find_listing id ((k, l) ∷ rest) = if text_eq l.id id then some l else find_listing id rest

abbrev or_invalid : {A : Type 0} → Option A → Result RegistryError A
or_invalid none = err invalid_wallet_id
or_invalid (some a) = ok a

unfoldable pub get_listing : Registry → Text → Result RegistryError Listing
get_listing r id = or_invalid (find_listing id r.listings)

abbrev and_then : {A B : Type 0} → (A → B) → Result RegistryError A → Result RegistryError B
and_then f (ok a) = ok (f a)
and_then f (err e) = err e
and_then f panic = panic

unfoldable pub check_wallet : Registry → Text → Platform → Result RegistryError Bool
unfolding get_listing
check_wallet r id platform = and_then (λ l. supports_platform l platform) (get_listing r id)

unfoldable pub get_wallet : Registry → Text → Result RegistryError WalletEntry
get_wallet r id = and_then entry (or_invalid (find_listing id r.listings))

abbrev pub filter_listings : Option Platform → List (Text × Listing) → List WalletEntry
filter_listings platform [] = []
filter_listings none ((k, l) ∷ rest) = entry l ∷ filter_listings none rest
filter_listings (some p) ((k, l) ∷ rest) =
    let others = filter_listings (some p) rest in
    if supports_platform l p then entry l ∷ others else others

unfoldable pub filter_wallets : Registry → Option Platform → List WalletEntry
filter_wallets r platform = filter_listings platform r.listings
