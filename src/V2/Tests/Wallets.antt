-- ===== src/V2/Tests/Wallets.antt =====
-- Runs of the envelopes, the accounts and the handlers of wallet-connect/src/v2.
use play_cpp_sdk.Prelude.{◌≡◌, refl, true, Option, none, some, [], ◌∷◌, ◌++◌, arith}
use play_cpp_sdk.Prelude.Text.{Text, Bytes, codes}
use play_cpp_sdk.Rust.Effect.{ok}
use play_cpp_sdk.Rust.Split.{Lacks}
use play_cpp_sdk.Hex.{IsBytes}
use play_cpp_sdk.V1.Protocol.{Address}
use play_cpp_sdk.V2.Crypto.{encrypt_and_encode, decode_decrypt}
use play_cpp_sdk.V2.Crypto.Envelope.{decode_decrypt-encrypt_and_encode}
use play_cpp_sdk.V2.Protocol.{Eip155AddressWithChainId}
use play_cpp_sdk.V2.Accounts.{
  Addresses, IsAddress, IsLossless, print_account, parse_account, parse_account-print_account,
}
use play_cpp_sdk.V2.Session
use play_cpp_sdk.V2.Handlers.{handle_session_delete_request}
use play_cpp_sdk.V2.Handlers.Effects.{delete_unanswered}
use play_cpp_sdk.V2.Dispatch.{message_received}
use play_cpp_sdk.V2.Dispatch.Topics.{message_received_stranger}
use play_cpp_sdk.Tests.{hex, hex_encode, hex_decode, hex_decode-encode}
use play_cpp_sdk.V1.Tests.{sixteen, key}
use play_cpp_sdk.V2.Tests.{ciphers, ciphers-IsSound, serde, delete_request, paired, settled}

abbrev twelve : Bytes
twelve = 1 ∷ 2 ∷ 3 ∷ 4 ∷ 5 ∷ 6 ∷ 7 ∷ 8 ∷ 9 ∷ 10 ∷ 11 ∷ 12 ∷ []

abbrev raw : Bytes
raw = sixteen ++ sixteen

abbrev envelope : Text
envelope = (0 ∷ twelve) ++ codes "hello"

raw_IsBytes : IsBytes raw
raw_IsBytes = ground arith

decode_decrypt-encrypt_and_encode_example :
    decode_decrypt ciphers key (encrypt_and_encode ciphers twelve key (codes "hello"))
    ≡ ok (codes "hello")
decode_decrypt-encrypt_and_encode_example =
    decode_decrypt-encrypt_and_encode ciphers key twelve (codes "hello") ciphers-IsSound refl

hex_Lacks : (b : Bytes) → IsBytes b → Lacks b':' (hex_encode b)
hex_Lacks [] small = tt
hex_Lacks (c ∷ b) (hc, hb) = (ground arith, (ground arith, hex_Lacks b hb))

abbrev parse_hex : Text → Option Address
parse_hex (x ∷ y ∷ s) = hex_decode s
parse_hex (x ∷ []) = none
parse_hex [] = none

abbrev addresses : Addresses
addresses = record { print_address = λ x. codes "0x" ++ hex_encode x; parse_address = parse_hex }

addresses-IsLossless : IsLossless addresses
addresses-IsLossless = record {
  has_prefix = λ x h. (hex_encode x, refl);
  no_colon = λ x h. ((λ e. omega arith), ((λ e. omega arith), hex_Lacks x h.1));
  parse-print = λ x h. hex_decode-encode x h.1;
}

abbrev twenty : Address
twenty = 1 ∷ 2 ∷ 3 ∷ 4 ∷ sixteen

abbrev account : Eip155AddressWithChainId
account = record { address = twenty; chain_id = 25 }

twenty-IsAddress : IsAddress twenty
twenty-IsAddress = (refl, ground arith)

parse_account-print_account_example :
    (s : Text) × (print_account addresses account ≡ some s)
    × (parse_account addresses s ≡ some account)
parse_account-print_account_example =
    parse_account-print_account addresses account addresses-IsLossless twenty-IsAddress
      (omega arith)

delete_unanswered_example :
    let w' = (handle_session_delete_request serde ciphers hex twelve [] true paired).0 in
    (w'.queue ≡ paired.queue) × (w'.session ≡ Session.session_delete paired.session)
delete_unanswered_example =
    delete_unanswered serde ciphers hex twelve [] delete_request true paired refl

message_received_stranger_example :
    message_received serde ciphers hex twelve true (codes "other") envelope settled
    ≡ (settled, ok tt)
message_received_stranger_example =
    message_received_stranger serde ciphers hex twelve true (codes "other") envelope (codes "pair")
      key settled refl (λ e. ground arith) (λ e. ground arith)
