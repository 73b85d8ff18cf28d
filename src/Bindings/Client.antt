-- ===== src/Bindings/Client.antt =====
-- extra-cpp-bindings/src/walletconnect.rs, and the functions of extra-cpp-bindings/src/lib.rs that make a
-- client: the client that C++ holds.
pub mod Signing
use play_cpp_sdk.Prelude.{ℕ, Bool, Option, none, some, List, [], ◌∷◌, if◌then◌else◌, ◌==◌, map}
use mathlib.Core.Option
use play_cpp_sdk.Prelude.Text.{Text, Bytes}
use play_cpp_sdk.Rust.Effect.{M, Result, ok, err, panic, ◌>>=◌, ◌>>◌, pure}
use play_cpp_sdk.Hex.{Hex}
use play_cpp_sdk.V1.Protocol.{Value, Url, Address, Request}
use play_cpp_sdk.V1.Crypto.{Ciphers}
use play_cpp_sdk.V1.Uri.{Urls, Uri}
use play_cpp_sdk.V1.Uri
use play_cpp_sdk.V1.Session.{SessionInfo, Callbacks}
use play_cpp_sdk.V1.Session
use play_cpp_sdk.V1.Context.{Serde, Error, World}
use play_cpp_sdk.V1.Socket.{Await}
use play_cpp_sdk.V1.Connector.{Drawn}
use play_cpp_sdk.V1.Client.{Client}
use play_cpp_sdk.V1.Client
use play_cpp_sdk.Bindings.Callbacks.{Texts}
use play_cpp_sdk.V1.Client.Dispatch.{run_callback}

-- An `anyhow::Error`, by where it comes from.
pub data BindingError : Type 0 where
  no_client empty_session_info bad_text client_failed : BindingError

-- `WalletconnectClient`, without its runtime.
abbrev pub Holder : Type 0
Holder = Option Client

abbrev pub from_client : Result Error Client → Result BindingError Client
from_client (ok c) = ok c
from_client (err e) = err client_failed
from_client panic = panic

-- Every text has to be the text of a URL.
abbrev pub parse_all : Urls → List Text → Option (List Url)
parse_all u [] = some []
parse_all u (t ∷ ts) = elim (u.parse_url t) [
  | none ↦ none
  | some url ↦ Option.map (λ urls. url ∷ urls) (parse_all u ts)
]

module _ (serde : Serde) (ciphers : Ciphers) (u : Urls) (texts : Texts)
    (connects : Url → Bool) where
  abbrev pub restore_read : Option SessionInfo → Callbacks → Result BindingError Client
  unfolding Client.restore
  restore_read none callbacks = err bad_text
  restore_read (some session) callbacks =
      from_client (Client.restore serde ciphers u connects session callbacks)

  unfoldable pub restore_client : Text → Callbacks → Result BindingError Client
  restore_client [] callbacks = err empty_session_info
  restore_client (c ∷ s) callbacks = restore_read (texts.read_session_info (c ∷ s)) callbacks

  -- The chain id 0 stands for none.
  abbrev chain_id_of : ℕ → Option ℕ
  chain_id_of chain_id = if chain_id == 0 then none else some chain_id

  abbrev pub new_parsed :
      Drawn
      → Text
      → Option Url
      → Option (List Url)
      → Text
      → ℕ
      → Callbacks
      → Result BindingError Client
  unfolding Client.new
  new_parsed d description url none name chain_id callbacks = err bad_text
  new_parsed d description none (some icons) name chain_id callbacks = err bad_text
  new_parsed d description (some url) (some icons) name chain_id callbacks = from_client (
      Client.new serde ciphers u connects d
        (record { description = description; url = url; icons = icons; name = name })
        (chain_id_of chain_id) callbacks)

  unfoldable pub new_client :
      Drawn → Text → Text → List Text → Text → ℕ → Callbacks → Result BindingError Client
  new_client d description url icon_urls name chain_id callbacks =
      new_parsed d description (u.parse_url url) (parse_all u icon_urls) name chain_id callbacks

-- `setup_callback_blocking` of a client: the channel is the one that `run_callback` makes for the task.
unfoldable pub setup_callback_blocking : ℕ → M Holder BindingError (Unit {0})
unfolding Client.set_callback
setup_callback_blocking channel none = (none, err no_client)
setup_callback_blocking channel (some c) = (some (Client.set_callback channel c), ok tt)

-- `if let Some(client) = self.client.as_mut() { … } else { bail!("no client") }`, with the client's errors as
-- one of the bindings.
abbrev pub after : {E A : Type 0} → Client → World × Result E A → Holder × Result BindingError A
after c (w, ok a) = (some (record c { connection = w }), ok a)
after c (w, err e) = (some (record c { connection = w }), err client_failed)
after c (w, panic) = (some (record c { connection = w }), panic)

abbrev pub with_client : {E A : Type 0} → (Client → M World E A) → M Holder BindingError A
with_client f none = (none, err no_client)
with_client f (some c) = after c (f c c.connection)

module _ (serde : Serde) (ciphers : Ciphers) where
  unfoldable pub sign_personal :
      {Signature : Type 0}
      → Hex
      → (Address → Text)
      → (Request (List Text) → Option Text)
      → (Value → Option Text)
      → (Text → Option Signature)
      → (Signature → Bytes)
      → Await
      → Bytes
      → ℕ
      → Text
      → Address
      → M Holder BindingError Bytes
  unfolding Client.personal_sign
  sign_personal h print write read parse to_vec await iv random message address = do
    result ← with_client (λ c.
        Client.personal_sign serde ciphers h print write read parse await iv random message address)
    pure (to_vec result)

  unfoldable pub ensure_session : Await → Bytes → ℕ → M Holder BindingError (List Address × ℕ)
  unfolding Client.ensure_session
  ensure_session await iv random =
      with_client (λ c. Client.ensure_session serde ciphers c.callback_channel await iv random)

abbrev pub read_only : {A : Type 0} → (Client → Result BindingError A) → M Holder BindingError A
read_only f none = (none, err no_client)
read_only f (some c) = (some c, f c)

abbrev or_error : {A : Type 0} → BindingError → Option A → Result BindingError A
or_error e none = err e
or_error e (some a) = ok a

abbrev or_panicked : {A : Type 0} → Option A → Result BindingError A
or_panicked none = panic
or_panicked (some a) = ok a

unfoldable pub save_client : Texts → M Holder BindingError Text
unfolding Client.get_session_info
save_client texts =
    read_only (λ c. or_error bad_text (texts.write_session_info (Client.get_session_info c)))

-- A panic is that of the URI's `expect`.
unfoldable pub get_connection_string : Urls → Hex → M Holder BindingError Text
unfolding Client.get_connection_string
get_connection_string u h = read_only (λ c. or_panicked (Client.get_connection_string u h c))

-- What is returned; the printing on the terminal is left out.
unfoldable pub print_uri : Urls → Hex → M Holder BindingError Text
unfolding Client.get_session_info Session.uri Uri.as_url
print_uri u h =
    read_only
      (λ c. or_panicked (Option.map Uri.as_url (Session.uri u h (Client.get_session_info c))))
