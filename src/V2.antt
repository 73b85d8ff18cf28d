-- ===== src/V2.antt =====
-- WalletConnect 2.0: wallet-connect/src/v2.
pub mod Protocol
pub mod Tag
pub mod Method
pub mod Accounts
pub mod Crypto
pub mod Session
pub mod Context
pub mod Handlers
pub mod Dispatch
pub mod Tasks
pub mod Connector
pub mod Interleaving
pub mod Client
pub mod Tests
