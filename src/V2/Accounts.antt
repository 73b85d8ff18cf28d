-- ===== src/V2/Accounts.antt =====
-- `Eip155AddressWithChainId` of wallet-connect/src/v2/protocol.rs, printed and parsed. Addresses are
-- printed and parsed by the crate `ethers`, a parameter.
use play_cpp_sdk.Prelude.{
  ℕ, ◌<◌, ◌≡◌, refl, Bool, true, false, ◌&&◌, Option, none, some, List, [], ◌∷◌, ◌++◌, arith,
  if◌then◌else◌, length,
}
use play_cpp_sdk.Prelude.Text.{Text, text_eq, text_eq_iff, codes}
use play_cpp_sdk.Rust.Split.{Lacks, split, split-append, split-Lacks}
use play_cpp_sdk.Rust.Decimal.{
  u64_mod, to_text, parse_u64, parse_u64-to_text, to_text-Lacks, parse_u64_bound,
}
use play_cpp_sdk.Hex.{IsBytes}
use play_cpp_sdk.V1.Protocol.{Address}
use play_cpp_sdk.V2.Protocol.{Eip155AddressWithChainId}

-- `format!("{address:?}")` and `Address::from_str`.
pub record Addresses : Type 0 where
  pub print_address : Address → Text
  pub parse_address : Text → Option Address

abbrev pub IsAddress : Address → Type 0
IsAddress x = (length x ≡ 20) × IsBytes x

-- `0x` and hexadecimal digits, which are read back.
pub record IsLossless (a : Addresses) : Type 0 where
  pub has_prefix : (x : Address) → IsAddress x → (s : Text) × (a.print_address x ≡ codes "0x" ++ s)
  pub no_colon : (x : Address) → IsAddress x → Lacks b':' (a.print_address x)
  pub parse-print : (x : Address) → IsAddress x → a.parse_address (a.print_address x) ≡ some x

abbrev starts_with : Text → Text → Bool
starts_with [] s = true
starts_with (c ∷ p) [] = false
starts_with (c ∷ p) (d ∷ s) = text_eq (c ∷ []) (d ∷ []) && starts_with p s

module _ (a : Addresses) where
  -- `Display`: `none` where the assertion on the prefix fails.
  unfoldable pub print_account : Eip155AddressWithChainId → Option Text
  print_account x =
      let full_address = a.print_address x.address in
      if starts_with (codes "0x") full_address
      then some (codes "eip155:" ++ (to_text x.chain_id ++ b':' ∷ full_address))
      else none

  abbrev account : Option ℕ → Option Address → Option Eip155AddressWithChainId
  account none address = none
  account (some chain_id) none = none
  account (some chain_id) (some address) = some (record { address = address; chain_id = chain_id })

  -- Pieces behind the third are not looked at.
  account_of : List Text → Option Eip155AddressWithChainId
  account_of [] = none
  account_of (prefix ∷ []) = none
  account_of (prefix ∷ chain_id ∷ []) = none
  account_of (prefix ∷ chain_id ∷ address ∷ rest) =
      if text_eq prefix (codes "eip155")
      then account (parse_u64 chain_id) (a.parse_address address)
      else none

  -- `FromStr`.
  unfoldable pub parse_account : Text → Option Eip155AddressWithChainId
  unfolding account_of
  parse_account s = account_of (split b':' s)

  -- If addresses are printed as `0x` and hexadecimal digits that are read back, an account with an
  -- address of 20 bytes and a chain id that is a `u64` is printed without a failure, and read back
  -- as it was.
  pub parse_account-print_account :
      (x : Eip155AddressWithChainId)
      → IsLossless a
      → IsAddress x.address
      → x.chain_id < u64_mod
      → (s : Text) × (print_account x ≡ some s) × (parse_account s ≡ some x)
  unfolding print_account parse_account text_eq
  parse_account-print_account x l i h =
      let full = a.print_address x.address in
      let (hex, prefix) = l.has_prefix x.address i in
      let chain = to_text x.chain_id in
      (
        codes "eip155:" ++ (chain ++ b':' ∷ full),
        ground arith,
        rw
            (
              split-append b':' (codes "eip155") (chain ++ b':' ∷ full) (omega arith),
              split-append b':' chain full (to_text-Lacks b':' x.chain_id (omega arith)),
              split-Lacks b':' full (l.no_colon x.address i),
              parse_u64-to_text x.chain_id h,
              l.parse-print x.address i,
            )
            refl,
      )

  account_of_sound :
      (pieces : List Text) (x : Eip155AddressWithChainId)
      → account_of pieces ≡ some x
      → (chain address : Text) × (rest : List Text) × (pieces
          ≡ codes "eip155" ∷ chain ∷ address ∷ rest)
        × (parse_u64 chain ≡ some x.chain_id)
        × (a.parse_address address ≡ some x.address)
  unfolding account_of
  account_of_sound [] x e = absurd (ground arith)
  account_of_sound (p ∷ []) x e = absurd (ground arith)
  account_of_sound (p ∷ q ∷ []) x e = absurd (ground arith)
  account_of_sound (p ∷ q ∷ r ∷ rest) x e =
      let is_prefix = text_eq_iff p (codes "eip155") in
      (q, r, rest, ground arith, ground arith, ground arith)

  -- An accepted text is split by colons into the word `eip155`, a number that fits a `u64`, and an
  -- address, and further pieces that are ignored; the account is that number and that address.
  pub parse_account_sound :
      (s : Text) (x : Eip155AddressWithChainId)
      → parse_account s ≡ some x
      → (chain address : Text) × (rest : List Text) × (split b':' s
          ≡ codes "eip155" ∷ chain ∷ address ∷ rest)
        × (parse_u64 chain ≡ some x.chain_id)
        × (x.chain_id < u64_mod)
        × (a.parse_address address ≡ some x.address)
  unfolding parse_account
  parse_account_sound s x e =
      let (chain, address, rest, shape, number, hex) = account_of_sound (split b':' s) x e in
      (chain, address, rest, shape, number, parse_u64_bound chain x.chain_id number, hex)
