-- ===== src/Rust.antt =====
-- What the program uses of Rust's standard library on texts: `u64` printed and parsed, and `split`.
pub mod Decimal
pub mod Effect
pub mod Split
