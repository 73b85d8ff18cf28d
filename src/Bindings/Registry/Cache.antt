-- ===== src/Bindings/Registry/Cache.antt =====
-- Fetching the registry and caching it in a file, in extra-cpp-bindings/src/wallectconnectregistry.rs, and
-- the wallet functions of extra-cpp-bindings/src/lib.rs, which load it for each call. The state is
-- the files by their paths; a write of a file is done or fails as a whole.
pub mod Trips
use play_cpp_sdk.Prelude.{Bool, Option, none, some, List, [], ◌∷◌, if◌then◌else◌}
use play_cpp_sdk.Prelude.Text.{Text, text_eq}
use play_cpp_sdk.Rust.Effect.{M, Result, ok, err, ◌>>=◌, ◌>>◌, pure, get, or_fail, or_panic}
use play_cpp_sdk.Bindings.Registry.{
  Registry, RegistryError, reqwest, serde, io, Platform, WalletEntry,
}
use play_cpp_sdk.Bindings.Registry

abbrev pub Files : Type 0
Files = Text → Option Text

-- The answer of the registry's service, the texts of a registry and the registry in such a text, the
-- registry that is part of the program, and the paths that can be written.
pub record Environment : Type 0 where
  pub fetched : Option Text
  pub read_registry : Text → Option Registry
  pub write_registry : Registry → Option Text
  pub bundled : Text
  pub is_writable : Text → Bool

module _ (env : Environment) where
  unfoldable pub write_file : Text → Text → M Files RegistryError (Unit {0})
  write_file path text files =
      if env.is_writable path
      then ((λ p. if text_eq p path then some text else files p), ok tt)
      else (files, err io)

  unfoldable pub write_cache : Option Text → Registry → M Files RegistryError (Unit {0})
  unfolding write_file
  write_cache none resp = pure tt
  write_cache (some path) resp = do
    text ← or_fail (env.write_registry resp) serde
    write_file path text

  unfoldable pub fetch_new : Option Text → M Files RegistryError Registry
  unfolding write_cache
  fetch_new cache = do
    body ← or_fail env.fetched reqwest
    resp ← or_fail (env.read_registry body) reqwest
    write_cache cache resp
    pure resp

  -- `Registry::default()`.
  unfoldable pub default : M Files RegistryError Registry
  default = or_panic (env.read_registry env.bundled)

  unfoldable pub load_cached : Option Text → M Files RegistryError Registry
  unfolding default
  load_cached none = default
  load_cached (some path) = do
    files ← get
    contents ← or_fail (files path) io
    or_fail (env.read_registry contents) serde

  abbrev pub path_of : Text → Option Text
  path_of [] = none
  path_of (c ∷ s) = some (c ∷ s)

  unfoldable pub load : Bool → Text → M Files RegistryError Registry
  unfolding load_cached fetch_new
  load cached registry_local_path =
      if cached
      then load_cached (path_of registry_local_path)
      else fetch_new (path_of registry_local_path)

  abbrev pub returns : {A : Type 0} → Result RegistryError A → M Files RegistryError A
  returns r files = (files, r)

  unfoldable pub check_wallet : Bool → Text → Text → Platform → M Files RegistryError Bool
  unfolding load Registry.check_wallet
  check_wallet cached registry_local_path id platform = do
    reg ← load cached registry_local_path
    returns (Registry.check_wallet reg id platform)

  unfoldable pub get_wallet : Bool → Text → Text → M Files RegistryError WalletEntry
  unfolding load Registry.get_wallet
  get_wallet cached registry_local_path id = do
    reg ← load cached registry_local_path
    returns (Registry.get_wallet reg id)

  unfoldable pub get_all_wallets : Bool → Text → M Files RegistryError (List WalletEntry)
  unfolding load Registry.filter_wallets
  get_all_wallets cached registry_local_path = do
    reg ← load cached registry_local_path
    pure (Registry.filter_wallets reg none)

  unfoldable pub filter_wallets : Bool → Text → Platform → M Files RegistryError (List WalletEntry)
  unfolding load Registry.filter_wallets
  filter_wallets cached registry_local_path platform = do
    reg ← load cached registry_local_path
    pure (Registry.filter_wallets reg (some platform))
