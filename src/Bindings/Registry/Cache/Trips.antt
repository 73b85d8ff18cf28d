-- ===== src/Bindings/Registry/Cache/Trips.antt =====
-- What the file of the registry holds after a call that fetched it.
use play_cpp_sdk.Prelude.{
  ℕ, ◌≡◌, ◌≢◌, refl, Bool, true, false, Option, none, some, [], ◌∷◌, arith, if◌then◌else◌,
  Option-cases, Bool-cases, inl, inr, ap, ◌∙◌,
}
use play_cpp_sdk.Prelude.Text.{Text, text_eq, text_eq_self}
use play_cpp_sdk.Rust.Effect.{ok, err, pure, continue}
use play_cpp_sdk.Bindings.Registry.{Registry, RegistryError, Platform}
use play_cpp_sdk.Bindings.Registry.Cache.{
  Files, Environment, write_file, write_cache, fetch_new, load_cached, load, check_wallet,
  get_wallet, get_all_wallets, filter_wallets, default, path_of,
}

-- A registry is read back from its text.
abbrev pub IsReadBack : Environment → Type 0
IsReadBack env =
    (r : Registry) (text : Text)
    → env.write_registry r ≡ some text
    → env.read_registry text ≡ some r

module _ (env : Environment) where
  fetched_file :
      (path : Text) (files files' : Files) (reg : Registry)
      → fetch_new env (some path) files ≡ (files', ok reg)
      → (text : Text) × (env.write_registry reg ≡ some text)
        × (files' ≡ λ p. if text_eq p path then some text else files p)
  unfolding fetch_new write_cache write_file
  fetched_file path files files' reg done = elim (Option-cases env.fetched) [
    | inl down ↦ absurd (ground arith)
    | inr (body, e1) ↦ elim (Option-cases (env.read_registry body)) [
      | inl bad ↦ absurd (ground arith)
      | inr (resp, e2) ↦ elim (Option-cases (env.write_registry resp)) [
        | inl bad ↦ absurd (ground arith)
        | inr (text, e3) ↦ elim (Bool-cases (env.is_writable path)) [
          | inl can ↦ (text, ground arith, ground arith)
          | inr cannot ↦ absurd (ground arith)
        ]
      ]
    ]
  ]

  load_again :
      (c : ℕ) (s : Text) (files files' : Files) (reg : Registry)
      → IsReadBack env
      → load env false (c ∷ s) files ≡ (files', ok reg)
      → load env true (c ∷ s) files' ≡ (files', ok reg)
  unfolding load load_cached
  load_again c s files files' reg reads done =
      let (text, written, now) = fetched_file (c ∷ s) files files' reg done in
      let self = text_eq_self (c ∷ s) in
      let back = reads reg text written in
      let held : files' (c ∷ s) ≡ (if text_eq (c ∷ s) (c ∷ s) then some text else files (c ∷ s)) =
        ap (λ f. f (c ∷ s)) now in
      ground arith

  -- With a path that is not empty, and where the registry is fetched with success: each of the wallet
  -- functions that fetches the registry has the same outcome, and leaves the same files, as the same
  -- function on the file that is cached then, and every other file is as before. A registry has to be
  -- read back from the text that is written.
  pub fetched_then_cached :
      (path : Text) (files files' : Files) (reg : Registry) (id : Text) (platform : Platform)
      → path ≢ []
      → IsReadBack env
      → load env false path files ≡ (files', ok reg)
      → (check_wallet env false path id platform files
          ≡ check_wallet env true path id platform files')
        × (get_wallet env false path id files ≡ get_wallet env true path id files')
        × (get_all_wallets env false path files ≡ get_all_wallets env true path files')
        × (filter_wallets env false path platform files
            ≡ filter_wallets env true path platform files')
        × ((other : Text) → text_eq other path ≡ false → files' other ≡ files other)
  unfolding load check_wallet get_wallet get_all_wallets filter_wallets
  fetched_then_cached [] files files' reg id platform named reads done = absurd (named refl)
  fetched_then_cached (c ∷ s) files files' reg id platform named reads done =
      let again = load_again c s files files' reg reads done in
      let (text, written, now) = fetched_file (c ∷ s) files files' reg done in
      (
        rw done (rw again refl),
        rw done (rw again refl),
        rw done (rw again refl),
        rw done (rw again refl),
        λ other differs. ap (λ f. f other) now ∙ ground arith,
      )

  failed_fetch :
      (cache : Option Text) (files files' : Files) (e : RegistryError)
      → fetch_new env cache files ≡ (files', err e)
      → files' ≡ files
  unfolding fetch_new write_cache write_file
  failed_fetch cache files files' e done = elim (Option-cases env.fetched) [
    | inl down ↦ ground arith
    | inr (body, e1) ↦ elim (Option-cases (env.read_registry body)) [
      | inl bad ↦ ground arith
      | inr (resp, e2) ↦ write_fails cache resp (ground arith)
    ]
  ]
    where
      write_fails :
          (cache : Option Text) (resp : Registry)
          → continue (write_cache env cache resp files) (λ _. pure resp) ≡ (files', err e)
          → files' ≡ files
      write_fails none resp h = absurd (ground arith)
      write_fails (some path) resp h = elim (Option-cases (env.write_registry resp)) [
        | inl bad ↦ ground arith
        | inr (text, e3) ↦ elim (Bool-cases (env.is_writable path)) [
          | inl can ↦ absurd (ground arith)
          | inr cannot ↦ ground arith
        ]
      ]

  failed_read :
      (cache : Option Text) (files files' : Files) (e : RegistryError)
      → load_cached env cache files ≡ (files', err e)
      → files' ≡ files
  unfolding load_cached default
  failed_read none files files' e done = elim (Option-cases (env.read_registry env.bundled)) [
    | inl bad ↦ absurd (ground arith)
    | inr (r, good) ↦ absurd (ground arith)
  ]
  failed_read (some path) files files' e done = elim (Option-cases (files path)) [
    | inl missing ↦ ground arith
    | inr (contents, there) ↦ elim (Option-cases (env.read_registry contents)) [
      | inl bad ↦ ground arith
      | inr (r, good) ↦ absurd (ground arith)
    ]
  ]

  -- A call that fails to load the registry, from the service or from the file, leaves every file as it was,
  -- so that a registry that an earlier call cached is still there.
  pub failed_load_keeps_files :
      (cached : Bool) (path : Text) (files files' : Files) (e : RegistryError)
      → load env cached path files ≡ (files', err e)
      → files' ≡ files
  unfolding load
  failed_load_keeps_files true path files files' e done =
      failed_read (path_of env path) files files' e done
  failed_load_keeps_files false path files files' e done =
      failed_fetch (path_of env path) files files' e done
