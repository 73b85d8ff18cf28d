-- ===== src/Bindings/Client/Signing/Absent.antt =====
-- What C++ gets from an object without a client.
use play_cpp_sdk.Prelude.{ℕ, ◌≡◌, refl, none}
use play_cpp_sdk.Prelude.Text.{Text}
use play_cpp_sdk.Rust.Effect.{err}
use play_cpp_sdk.Hex.{Hex}
use play_cpp_sdk.V1.Protocol.{Address}
use play_cpp_sdk.V1.Crypto.{Ciphers}
use play_cpp_sdk.V1.Uri.{Urls}
use play_cpp_sdk.V1.Context.{Serde}
use play_cpp_sdk.Middleware.{Ethers}
use play_cpp_sdk.Bindings.Transactions.{WalletConnectTxCommon, WalletConnectTxEip155, Parsers}
use play_cpp_sdk.Bindings.Callbacks.{Texts}
use play_cpp_sdk.Bindings.Client.{
  no_client, setup_callback_blocking, ensure_session, save_client, get_connection_string, print_uri,
}
use play_cpp_sdk.Bindings.Client.Signing.{
  Transactions, Contracts, Exchange, sign_eip155_transaction, send_eip155_transaction,
  sign_transaction, send_transaction, sign_contract_transaction, send_contract_transaction,
}

module _ {Tx Signature Approval Transfer : Type 0} (serde : Serde) (ciphers : Ciphers)
    (e : Ethers Signature) (h : Hex) (t : Transactions Tx Signature) (p : Parsers)
    (contracts : Contracts Tx Approval Transfer) (x : Exchange) (texts : Texts) (u : Urls) where
  -- Without a client every operation fails for that reason, before it reads any of its arguments, and there
  -- is still no client behind it.
  pub operations_without_client :
      (userinfo : WalletConnectTxEip155) (common : WalletConnectTxCommon) (text : Text)
      (address : Address) (channel : ℕ)
      → (setup_callback_blocking channel none ≡ (none, err no_client))
        × (ensure_session serde ciphers x.await x.iv x.random none ≡ (none, err no_client))
        × (save_client texts none ≡ (none, err no_client))
        × (get_connection_string u h none ≡ (none, err no_client))
        × (print_uri u h none ≡ (none, err no_client))
        × (sign_eip155_transaction serde ciphers e h t p contracts x userinfo address none
            ≡ (none, err no_client))
        × (send_eip155_transaction serde ciphers e h t p contracts x userinfo address none
            ≡ (none, err no_client))
        × (sign_transaction serde ciphers e h t p contracts x text address none
            ≡ (none, err no_client))
        × (send_transaction serde ciphers e h t p contracts x text address none
            ≡ (none, err no_client))
        × (sign_contract_transaction serde ciphers e h t p contracts x text common address none
            ≡ (none, err no_client))
        × (send_contract_transaction serde ciphers e h t p contracts x text common address none
            ≡ (none, err no_client))
  unfolding setup_callback_blocking ensure_session save_client get_connection_string print_uri
      sign_eip155_transaction send_eip155_transaction sign_transaction send_transaction
      sign_contract_transaction send_contract_transaction
  operations_without_client userinfo common text address channel =
      (refl, refl, refl, refl, refl, refl, refl, refl, refl, refl, refl)
