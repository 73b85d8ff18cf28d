-- ===== src/V1/Uri/Accepted.antt =====
-- Which texts `Uri::parse` accepts, and which parameters of the query it takes.
use play_cpp_sdk.Prelude.{
  ◌≡◌, true, Option, none, some, List, [], ◌∷◌, ◌⊎◌, ◌↔◌, inl, inr, All, arith, if◌then◌else◌,
  Option-cases,
}
use play_cpp_sdk.Prelude.Text.{Text, text_eq, text_eq_iff, codes}
use play_cpp_sdk.Hex.{Hex}
use play_cpp_sdk.V1.Protocol.{Url}
use play_cpp_sdk.V1.Crypto.{Key, from_str}
use play_cpp_sdk.V1.Uri.{Urls, Uri, parse, read_pairs}

-- The value of the last pair of a name.
abbrev pub last_value : Text → List (Text × Text) → Option Text
last_value name [] = none
last_value name ((n, value) ∷ rest) = elim (last_value name rest) [
  | some v ↦ some v
  | none ↦ if text_eq n name then some value else none
]

abbrev pub IsKnown : Text × Text → Type 0
IsKnown p = (p.0 ≡ codes "bridge") ⊎ (p.0 ≡ codes "key")

-- A later value in place of an earlier one.
abbrev pub override : {A : Type 0} → (Text → Option A) → Option Text → Option A → Option A
override read none old = old
override read (some t) old = read t

module _ (u : Urls) (h : Hex) where
  read_pairs_last :
      (ps : List (Text × Text)) (b b' : Option Url) (k k' : Option Key)
      → read_pairs u h ps b k ≡ some (b', k')
      → (b' ≡ override u.parse_url (last_value (codes "bridge") ps) b)
        × (k' ≡ override (from_str h) (last_value (codes "key") ps) k)
        × All IsKnown ps
  unfolding read_pairs
  read_pairs_last [] b b' k k' e = ground arith
  read_pairs_last ((name, value) ∷ ps) b b' k k' e = elim (Option-cases (u.parse_url value)) [
    | inl no_url ↦ elim (Option-cases (from_str h value)) [
      | inl no_key ↦ ground (arith, iff_bridge, iff_key)
      | inr (x, key) ↦ ground (arith, iff_bridge, iff_key, read_pairs_last ps b b' (some x) k')
    ]
    | inr (y, url) ↦ elim (Option-cases (from_str h value)) [
      | inl no_key ↦ ground (arith, iff_bridge, iff_key, read_pairs_last ps (some y) b' k k')
      | inr (x, key) ↦ ground (
        arith,
        iff_bridge,
        iff_key,
        read_pairs_last ps (some y) b' k k',
        read_pairs_last ps b b' (some x) k',
      )
    ]
  ]
    where
      iff_bridge : (text_eq name (codes "bridge") ≡ true) ↔ (name ≡ codes "bridge")
      iff_bridge = text_eq_iff name (codes "bridge")

      iff_key : (text_eq name (codes "key") ≡ true) ↔ (name ≡ codes "key")
      iff_key = text_eq_iff name (codes "key")

  -- What `parse` accepts is a URL of the scheme `wc`, and the result has version 1, a UUID as its topic
  -- and that URL; the query has no parameter but `bridge` and `key`, both occur, and the result has the
  -- last value of each.
  pub parse_sound :
      (text : Text) (r : Uri)
      → parse u h text ≡ some r
      → (u.parse_url text ≡ some r.url)
        × (u.scheme r.url ≡ codes "wc")
        × (r.version ≡ 1)
        × (u.is_uuid r.handshake_topic ≡ true)
        × All IsKnown (u.query_pairs r.url)
        × (override u.parse_url (last_value (codes "bridge") (u.query_pairs r.url)) none
            ≡ some r.bridge)
        × (override (from_str h) (last_value (codes "key") (u.query_pairs r.url)) none ≡ some r.key)
  unfolding parse
  parse_sound text r e = elim (Option-cases (u.parse_url text)) [
    | inl no_url ↦ ground arith
    | inr (url, is_url) ↦ elim (Option-cases (read_pairs u h (u.query_pairs url) none none)) [
      | inl refused ↦ ground arith
      | inr ((bridge, key), taken) ↦ ground (
        arith,
        text_eq_iff (u.scheme url) (codes "wc"),
        read_pairs_last (u.query_pairs url) none bridge none key taken,
      )
    ]
  ]
