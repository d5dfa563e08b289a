-- ===== src/Prelude/Text.antt =====
-- C strings as lists of byte values, with `std::to_string` and `atoi` of the standard library.
mod Decimal
mod Laws
unfoldable pub use Decimal.{
  Text, text_eq, is_digit, is_space, digits_from, digits, to_string, scan, atoi, number, stoi,
}
pub use Laws.*
