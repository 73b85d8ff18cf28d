-- ===== src/V1/Session/ConnectionUri.antt =====
-- The connection URI of a session: printed by session.rs, read by uri.rs.
use play_cpp_sdk.Prelude.{
  ℕ, ◌≤◌, ◌≡◌, refl, true, none, some, List, [], ◌∷◌, ◌++◌, ◌⊎◌, All, All-append, arith, length,
}
use play_cpp_sdk.Prelude.Text.{Text, codes, text_eq}
use play_cpp_sdk.Rust.Split.{Lacks, split_once-append}
use play_cpp_sdk.Rust.Decimal.{parse_u64}
use play_cpp_sdk.Hex.{Hex, IsLossless, IsBytes}
use play_cpp_sdk.V1.Protocol.{Url, Topic}
use play_cpp_sdk.V1.Crypto.{Key, display, from_str}
use play_cpp_sdk.V1.Crypto.Laws.{from_str-display}
use play_cpp_sdk.V1.Uri.{Urls, IsLawful, IsPlain, Uri, parse, read_pairs, into_parts}
use play_cpp_sdk.V1.Session.{SessionInfo, uri}

-- What a UUID that is printed with dashes has: digits, letters and dashes.
abbrev pub IsUuidChar : ℕ → Type 0
IsUuidChar c =
    ((b'0' ≤ c) × (c ≤ b'9')) ⊎ ((b'A' ≤ c) × (c ≤ b'Z')) ⊎ ((b'a' ≤ c) × (c ≤ b'z')) ⊎ (c ≡ b'-')

IsPlain-of_uuid : (t : Text) → All IsUuidChar t → All IsPlain t
IsPlain-of_uuid [] h = tt
IsPlain-of_uuid (c ∷ t) (hc, ht) = (ground arith, IsPlain-of_uuid t ht)

uuid-Lacks : (t : Text) → All IsUuidChar t → Lacks b'@' t
uuid-Lacks [] h = tt
uuid-Lacks (c ∷ t) (hc, ht) = ((λ e. ground arith), uuid-Lacks t ht)

module _ (u : Urls) (h : Hex) (bridge : Url) (key : Key) where
  read_both :
      u.parse_url bridge ≡ some bridge
      → from_str h (display h key) ≡ some key
      → read_pairs u h ((codes "bridge", bridge) ∷ (codes "key", display h key) ∷ []) none none
        ≡ some (some bridge, some key)
  unfolding read_pairs text_eq
  read_both pb pk = rw (pb, pk) refl

  parse_parts :
      (text : Text) (topic : Topic) (url : Url) (pairs : List (Text × Text))
      → u.parse_url text ≡ some url
      → u.scheme url ≡ codes "wc"
      → u.path url ≡ topic ++ codes "@1"
      → u.query_pairs url ≡ pairs
      → Lacks b'@' topic
      → u.is_uuid topic ≡ true
      → read_pairs u h pairs none none ≡ some (some bridge, some key)
      → parse u h text
        ≡ some
            (record { handshake_topic = topic; version = 1; bridge = bridge; key = key; url = url })
  unfolding parse text_eq parse_u64
  parse_parts text topic url pairs pe sc pa qp l uuid rd =
      rw (pe, sc, pa, qp, split_once-append b'@' topic (codes "1") l, uuid, rd) refl

-- If the crates url and hex keep their promises, a session whose topic the crate uuid accepts and which
-- is written with digits, letters and dashes only (the form in which topics are made, without braces or
-- `urn:uuid:`), whose bridge is a URL as the crate prints it, and whose key has 32 bytes has a
-- connection URI: its `expect` does not fail, and the parts of the URI are the session's topic, bridge
-- and key, in version 1.
pub uri-into_parts :
    (u : Urls) (h : Hex) (info : SessionInfo)
    → IsLawful u
    → IsLossless h
    → u.is_uuid info.handshake_topic ≡ true
    → All IsUuidChar info.handshake_topic
    → u.parse_url info.bridge ≡ some info.bridge
    → length info.key.raw ≡ 32
    → IsBytes info.key.raw
    → (r : Uri) × (uri u h info ≡ some r)
      × (into_parts r ≡ (info.handshake_topic, info.bridge, info.key))
      × (r.version ≡ 1)
unfolding uri into_parts
uri-into_parts u h info law hex uuid chars bridge size bytes =
    let pairs : List (Text × Text) =
      (codes "bridge", info.bridge) ∷ (codes "key", display h info.key) ∷ [] in
    let (url, pe, sc, pa, qp) =
      law.parse_opaque (info.handshake_topic ++ codes "@1") pairs
        (All-append _ info.handshake_topic (codes "@1") (IsPlain-of_uuid _ chars) (omega arith)) in
    let key_back = (from_str-display h info.key hex size bytes).0 in
    (
      _,
      parse_parts u h info.bridge info.key _ info.handshake_topic url pairs pe sc pa qp
          (uuid-Lacks info.handshake_topic chars) uuid
          (read_both u h info.bridge info.key bridge key_back),
      refl,
      refl,
    )
