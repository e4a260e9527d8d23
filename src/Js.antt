-- ===== src/Js.antt =====
-- The parts of JavaScript that the scripts use: 32-bit words, doubles, numbers as text, and the
-- strings and objects.
pub mod Word
pub mod Bits
pub mod Bitwise
pub mod Coerce
pub mod Double
pub mod Fixed
pub mod Numeral
pub mod Json
pub mod Object
pub mod Outcome
pub mod Strings
pub mod Transfer
