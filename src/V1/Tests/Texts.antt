-- ===== src/V1/Tests/Texts.antt =====
-- A URL parser for the tests, and runs of wallet-connect/src/{crypto,uri,hex,serialization}.
use play_cpp_sdk.Prelude.{
  ◌+◌, ◌-◌, ◌≡◌, ◌≢◌, ◌↔◌, refl, true, Option, none, some, List, [], ◌∷◌, ◌++◌, arith, All,
}
use play_cpp_sdk.Prelude.Text.{Text, codes, text_eq}
use play_cpp_sdk.Rust.Split.{Lacks, split, split_once, split-append, split_once-append}
use play_cpp_sdk.V1.Uri.{Urls, IsLawful, IsPlain}
use play_cpp_sdk.Rust.Decimal.{to_text, parse_u64, parse_u64-to_text}
use play_cpp_sdk.Rust.Effect.{ok, err}
use play_cpp_sdk.Hex.{IsBytes}
use play_cpp_sdk.V1.Protocol.{EncryptionPayload}
use play_cpp_sdk.V1.Crypto.{seal, open_sealed, hmac_sha256, verify, from_str}
use play_cpp_sdk.V1.Crypto.Laws.{open_sealed-seal, open_sealed-verify}
use play_cpp_sdk.V1.Uri.{Uri, parse, into_parts, parse_topic, read_pairs}
use play_cpp_sdk.V1.Uri.Accepted.{parse_sound, IsKnown, override, last_value}
use play_cpp_sdk.V1.Session.{SessionInfo, uri}
use play_cpp_sdk.V1.Session.ConnectionUri.{IsUuidChar, uri-into_parts}
use play_cpp_sdk.Tests.{hex, hex-IsLossless, hex_encode}
use play_cpp_sdk.V1.Tests.{ciphers, ciphers-IsSound, sixteen, key, payload, info}

abbrev shift : Text → Text
shift [] = []
shift (c ∷ s) = (c + 2) ∷ shift s

abbrev unshift : Text → Text
unshift [] = []
unshift (c ∷ s) = (c - 2) ∷ unshift s

unshift-shift : (s : Text) → unshift (shift s) ≡ s
unshift-shift [] = refl
unshift-shift (c ∷ s) = ground (arith, unshift-shift s)

-- Names and values shifted, with 0 behind a name and 1 behind a value.
abbrev encode_pairs : List (Text × Text) → Text
encode_pairs [] = []
encode_pairs ((n, v) ∷ r) = (shift n ++ 0 ∷ shift v) ++ 1 ∷ encode_pairs r

abbrev decode_pair : Text × Option Text → List (Text × Text) → List (Text × Text)
decode_pair (n, none) r = r
decode_pair (n, some v) r = (unshift n, unshift v) ∷ r

abbrev decode_pieces : List Text → List (Text × Text)
decode_pieces [] = []
decode_pieces (p ∷ ps) = decode_pair (split_once 0 p) (decode_pieces ps)

Lacks-shift : (s : Text) → Lacks 0 (shift s)
Lacks-shift [] = tt
Lacks-shift (c ∷ s) = ((λ e. omega arith), Lacks-shift s)

Lacks-shift_one : (s : Text) → Lacks 1 (shift s)
Lacks-shift_one [] = tt
Lacks-shift_one (c ∷ s) = ((λ e. omega arith), Lacks-shift_one s)

Lacks-pair : (n v : Text) → Lacks 1 (shift n ++ 0 ∷ shift v)
Lacks-pair [] v = ((λ e. omega arith), Lacks-shift_one v)
Lacks-pair (c ∷ n) v = ((λ e. omega arith), Lacks-pair n v)

decode-encode_pairs : (ps : List (Text × Text)) → decode_pieces (split 1 (encode_pairs ps)) ≡ ps
unfolding split split_once
decode-encode_pairs [] = refl
decode-encode_pairs ((n, v) ∷ r) =
    rw
      (
        split-append 1 (shift n ++ 0 ∷ shift v) (encode_pairs r) (Lacks-pair n v),
        split_once-append 0 (shift n) (shift v) (Lacks-shift n),
        unshift-shift n,
        unshift-shift v,
        decode-encode_pairs r,
      )
      refl

abbrev or_nothing : Option Text → Text
or_nothing none = []
or_nothing (some s) = s

abbrev behind : Text → Text
behind url = or_nothing (split_once b':' url).1

abbrev pub urls : Urls
urls = record {
  parse_url = λ t. some t;
  scheme = λ t. (split_once b':' t).0;
  path = λ t. (split_once b'?' (behind t)).0;
  query_pairs = λ t. decode_pieces (split 1 (or_nothing (split_once b'?' (behind t)).1));
  set_scheme = λ t s. some (s ++ b':' ∷ behind t);
  form_urlencoded = encode_pairs;
  is_uuid = λ t. text_eq t (codes "a1-b2");
}

plain_Lacks : (p : Text) → All IsPlain p → Lacks b'?' p
plain_Lacks [] h = tt
plain_Lacks (c ∷ p) (hc, hp) = ((λ e. ground arith), plain_Lacks p hp)

pub urls-IsLawful : IsLawful urls
unfolding split_once text_eq
urls-IsLawful = record {
  parse_opaque = λ p pairs plain.
      let once = split_once-append b'?' p (encode_pairs pairs) (plain_Lacks p plain) in
      (
        codes "wc:" ++ (p ++ b'?' ∷ encode_pairs pairs),
        refl,
        refl,
        rw once refl,
        rw once (decode-encode_pairs pairs),
      );
}

abbrev uri_text : Text
uri_text =
    codes "wc:a1-b2@1?"
    ++ encode_pairs ((codes "bridge", codes "b:") ∷ (codes "key", hex_encode key.raw) ∷ [])

abbrev uri_info : SessionInfo
uri_info = record info { bridge = codes "b:"; handshake_topic = codes "a1-b2" }

abbrev read_uri : Uri
read_uri = record {
  handshake_topic = codes "a1-b2";
  version = 1;
  bridge = codes "b:";
  key = key;
  url = uri_text;
}

key_IsBytes : IsBytes key.raw
key_IsBytes = ground arith

open_sealed-seal_example :
    (p : EncryptionPayload) × (seal ciphers sixteen key.raw (codes "hello") ≡ some p)
    × (open_sealed ciphers key.raw p ≡ ok (codes "hello"))
open_sealed-seal_example =
    open_sealed-seal ciphers key.raw sixteen (codes "hello") ciphers-IsSound refl refl

open_sealed-verify_example :
    (open_sealed ciphers sixteen payload ≡ err verify)
    ↔ (hmac_sha256 ciphers sixteen payload.iv payload.encrypted ≢ payload.hmac)
open_sealed-verify_example = open_sealed-verify ciphers sixteen payload

parse_sound_example :
    (urls.parse_url uri_text ≡ some read_uri.url)
    × (urls.scheme read_uri.url ≡ codes "wc")
    × (read_uri.version ≡ 1)
    × (urls.is_uuid read_uri.handshake_topic ≡ true)
    × All IsKnown (urls.query_pairs read_uri.url)
    × (override urls.parse_url (last_value (codes "bridge") (urls.query_pairs read_uri.url)) none
        ≡ some read_uri.bridge)
    × (override (from_str hex) (last_value (codes "key") (urls.query_pairs read_uri.url)) none
        ≡ some read_uri.key)
unfolding parse parse_topic read_pairs text_eq split_once split parse_u64 from_str
parse_sound_example = parse_sound urls hex uri_text read_uri refl

topic_chars : All IsUuidChar uri_info.handshake_topic
topic_chars = (ground arith, (ground arith, (ground arith, (ground arith, (ground arith, tt)))))

uri-into_parts_example :
    (r : Uri) × (uri urls hex uri_info ≡ some r)
    × (into_parts r ≡ (uri_info.handshake_topic, uri_info.bridge, uri_info.key))
    × (r.version ≡ 1)
unfolding text_eq
uri-into_parts_example =
    uri-into_parts urls hex uri_info urls-IsLawful hex-IsLossless refl topic_chars refl refl
      key_IsBytes

parse_u64-to_text_example : parse_u64 (to_text 18446744073709551615) ≡ some 18446744073709551615
parse_u64-to_text_example = parse_u64-to_text 18446744073709551615 (omega arith)
