-- ===== src/Decimal/Whole.antt =====
-- A concrete instance of the `bigdecimal` interface, over whole numbers in decimal notation, which
-- shows that its laws can hold together and on which examples are evaluated.
mod Digits
mod Instance
unfoldable pub use Instance.{whole, whole-laws, from_str, to_string, cmp}
