-- ===== src/V1/Uri.antt =====
-- wallet-connect/src/uri.rs, and `FromStr` of wallet-connect/src/protocol/topic.rs. The crates `url`
-- and `uuid` are parameters.
pub mod Accepted
use play_cpp_sdk.Prelude.{
  ℕ, ◌≡◌, Bool, true, false, Option, none, some, List, [], ◌∷◌, ◌++◌, if◌then◌else◌, ◌==◌, All, ◌⊎◌,
  ◌≤◌,
}
use play_cpp_sdk.Prelude.Text.{Text, text_eq, codes}
use play_cpp_sdk.Rust.Split.{split_once}
use play_cpp_sdk.Rust.Decimal.{parse_u64}
use play_cpp_sdk.Hex.{Hex}
use play_cpp_sdk.V1.Protocol.{Url, Topic}
use play_cpp_sdk.V1.Crypto.{Key, from_str}

-- The crates `url` and `uuid`.
pub record Urls : Type 0 where
  pub parse_url : Text → Option Url
  pub scheme : Url → Text
  pub path : Url → Text
  pub query_pairs : Url → List (Text × Text)
  pub set_scheme : Url → Text → Option Url
  -- `form_urlencoded::Serializer` after an `append_pair` for each pair.
  pub form_urlencoded : List (Text × Text) → Text
  -- `Uuid::from_str` succeeds.
  pub is_uuid : Text → Bool

-- A letter, a digit or one of `-` and `@`.
abbrev pub IsPlain : ℕ → Type 0
IsPlain c =
    ((b'0' ≤ c) × (c ≤ b'9'))
    ⊎ ((b'A' ≤ c) × (c ≤ b'Z'))
    ⊎ ((b'a' ≤ c) × (c ≤ b'z'))
    ⊎ (c ≡ b'-')
    ⊎ (c ≡ b'@')

-- What the crate `url` promises: a URL with an opaque path of plain characters has the scheme, the path and
-- the pairs that it was written with.
pub record IsLawful (u : Urls) : Type 0 where
  pub parse_opaque :
      (p : Text) (pairs : List (Text × Text))
      → All IsPlain p
      → (url : Url) × (u.parse_url (codes "wc:" ++ (p ++ b'?' ∷ u.form_urlencoded pairs))
          ≡ some url)
        × (u.scheme url ≡ codes "wc")
        × (u.path url ≡ p)
        × (u.query_pairs url ≡ pairs)

pub record Uri : Type 0 where
  pub handshake_topic : Topic
  pub version : ℕ
  pub bridge : Url
  pub key : Key
  pub url : Url

abbrev pub supported_version : ℕ
supported_version = 1

-- `?` on an `Option`; every error of this module is `InvalidSessionUri`.
infixl 5 ◌>>=◌
abbrev pub ◌>>=◌ : {A B : Type 0} → Option A → (A → Option B) → Option B
none >>= f = none
some a >>= f = f a

abbrev guard : Bool → Option (Unit {0})
guard true = some tt
guard false = none

module _ (u : Urls) where
  unfoldable pub parse_topic : Text → Option Topic
  parse_topic s = if u.is_uuid s then some s else none

  module _ (h : Hex) where
    -- The loop over the query: the last value of a name counts, and no other name is allowed.
    unfoldable pub read_pairs :
        List (Text × Text) → Option Url → Option Key → Option (Option Url × Option Key)
    read_pairs [] bridge key = some (bridge, key)
    read_pairs ((name, value) ∷ rest) bridge key =
        let as_bridge = (do b ← u.parse_url value; read_pairs rest (some b) key) in
        let as_key = (do k ← from_str h value; read_pairs rest bridge (some k)) in
        if text_eq name (codes "bridge")
        then as_bridge
        else if text_eq name (codes "key")
        then as_key
        else none

    unfoldable pub parse : Text → Option Uri
    unfolding parse_topic read_pairs
    parse uri = do
      url ← u.parse_url uri
      _ ← guard (text_eq (u.scheme url) (codes "wc"))
      let pieces = split_once b'@' (u.path url)
      handshake_topic ← parse_topic pieces.0
      rest ← pieces.1
      version ← parse_u64 rest
      _ ← guard (version == supported_version)
      found ← read_pairs (u.query_pairs url) none none
      bridge ← found.0
      key ← found.1
      some (record {
        handshake_topic = handshake_topic;
        version = version;
        bridge = bridge;
        key = key;
        url = url;
      })

unfoldable pub into_parts : Uri → Topic × Url × Key
into_parts uri = (uri.handshake_topic, uri.bridge, uri.key)

unfoldable pub as_url : Uri → Url
as_url uri = uri.url
