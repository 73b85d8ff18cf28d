-- ===== src/Bindings.antt =====
-- The bindings for C++: extra-cpp-bindings/src.
pub mod Registry
pub mod Transactions
pub mod Pay
pub mod Explorer
pub mod History
pub mod Callbacks
pub mod Client
pub mod Qrcode
pub mod Tests
