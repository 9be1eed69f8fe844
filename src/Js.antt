-- ===== src/Js.antt =====
-- JavaScript values as the validators of the program read them.
pub mod Text
pub mod Decimal
pub mod Signed
pub mod Value
pub mod Canonical
pub mod Sample
pub mod Trim
