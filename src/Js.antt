-- ===== src/Js.antt =====
-- The part of JavaScript's values and standard library on which the server relies: JSON values, the
-- conversions `String(x)` and `Number(x)`, `trim`, `slice` and `toUpperCase`.
pub mod Values
pub mod Strings
pub mod Convert
