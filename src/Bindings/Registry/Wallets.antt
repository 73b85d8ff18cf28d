-- ===== src/Bindings/Registry/Wallets.antt =====
-- Looking a wallet up, checking it, and listing the wallets of a platform.
use play_cpp_sdk.Prelude.{
  ◌≡◌, ◌⊎◌, inl, inr, ◌↔◌, refl, Bool, true, false, ◌||◌, not, some, List, [], ◌∷◌, arith,
  if◌then◌else◌, is_empty, sym, subst, ap, ◌∙◌, Option-cases, Bool-cases,
}
use play_cpp_sdk.Prelude.Text.{Text, text_eq}
use play_cpp_sdk.Rust.Effect.{ok}
use play_cpp_sdk.Bindings.Registry.{
  Platform, mobile_platform, desktop_platform, other_platform, WalletEntry, Listing, Registry,
  supports_platform, entry, find_listing, check_wallet, get_wallet, filter_listings, filter_wallets,
}

abbrev pub Member : WalletEntry → List WalletEntry → Type 0
Member e [] = false ≡ true
Member e (x ∷ xs) = (e ≡ x) ⊎ Member e xs

-- Whether an entry has a link for a platform.
abbrev entry_supports : WalletEntry → Platform → Bool
entry_supports e mobile_platform =
    not (is_empty e.mobile_native_link) || not (is_empty e.mobile_universal_link)
entry_supports e desktop_platform =
    not (is_empty e.desktop_native_link) || not (is_empty e.desktop_universal_link)
entry_supports e (other_platform b) = false

entry_supports_same :
    (l : Listing) (p : Platform) → entry_supports (entry l) p ≡ supports_platform l p
unfolding supports_platform
entry_supports_same l mobile_platform = refl
entry_supports_same l desktop_platform = refl
entry_supports_same l (other_platform b) = refl

found_listed :
    (id : Text) (p : Platform) (ls : List (Text × Listing)) (l : Listing)
    → find_listing id ls ≡ some l
    → supports_platform l p ≡ true
    → Member (entry l) (filter_listings (some p) ls)
found_listed id p [] l found supports = absurd (ground arith)
found_listed id p ((k, m) ∷ ls) l found supports = elim (Bool-cases (text_eq m.id id)) [
  | inl here ↦
      let same : m ≡ l = ground arith in
      subst (λ x. Member (entry x) (filter_listings (some p) ((k, m) ∷ ls))) same
        (rw (subst (λ x. supports_platform x p ≡ true) (sym same) supports) (inl refl))
  | inr other ↦
      let rest = found_listed id p ls l (ground arith) supports in
      elim (Bool-cases (supports_platform m p)) [
        | inl has ↦ rw has (inr rest)
        | inr lacks ↦ rw lacks rest
      ]
]

listed_supports :
    (p : Platform) (e : WalletEntry) (ls : List (Text × Listing))
    → Member e (filter_listings (some p) ls)
    → entry_supports e p ≡ true
listed_supports p e [] m = absurd (ground arith)
listed_supports p e ((k, l) ∷ ls) m =
    go (λ rest. listed_supports p e ls rest) (supports_platform l p) refl m
  where
    go :
        (Member e (filter_listings (some p) ls) → entry_supports e p ≡ true)
        → (b : Bool) → supports_platform l p ≡ b
        → Member e
            (if b then entry l ∷ filter_listings (some p) ls else filter_listings (some p) ls)
        → entry_supports e p ≡ true
    go later true has (inl same) =
        ap (λ x. entry_supports x p) same ∙ (entry_supports_same l p ∙ has)
    go later true has (inr rest) = later rest
    go later false lacks rest = later rest

-- The wallet that `get_wallet` returns for an id is among those that `filter_wallets` returns for a
-- platform exactly if `check_wallet` says that the id's wallet supports the platform.
pub check_wallet-filter_wallets :
    (r : Registry) (id : Text) (p : Platform) (e : WalletEntry)
    → get_wallet r id ≡ ok e
    → (check_wallet r id p ≡ ok true) ↔ Member e (filter_wallets r (some p))
unfolding get_wallet check_wallet filter_wallets
check_wallet-filter_wallets r id p e got = elim (Option-cases (find_listing id r.listings)) [
  | inl missing ↦ absurd (ground arith)
  | inr (l, found) ↦
      let same : entry l ≡ e = ground arith in
      (
        λ checked.
            subst (λ x. Member x (filter_listings (some p) r.listings)) same
              (found_listed id p r.listings l found (ground arith)),
        λ listed.
            let has = listed_supports p e r.listings listed in
            let link = entry_supports_same l p in
            let moved = ap (λ x. entry_supports x p) same in ground arith,
      )
]
