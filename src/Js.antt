-- ===== src/Js.antt =====
-- What the console uses of JavaScript: texts, values, regular expressions and sorting.
pub mod Text
pub mod Value
pub mod Order
pub mod Regex
