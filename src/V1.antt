-- ===== src/V1.antt =====
-- WalletConnect 1.0: wallet-connect/src/{protocol,client,crypto,uri}.
pub mod Protocol
pub mod Crypto
pub mod Uri
pub mod Session
pub mod Context
pub mod Socket
pub mod Handshake
pub mod Tasks
pub mod Connector
pub mod Tests
pub mod Client
pub mod Interleaving
