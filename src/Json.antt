-- ===== src/Json.antt =====
-- encoding/json for slices of strings, as mrp_controller/service/mrp_service.go uses it: `Marshal`
-- of a []string, and `Unmarshal` into a nil []string with the error dropped.
--
-- Texts are bytes, read as UTF-8; both ways a byte that begins no rune gives U+FFFD. The fuel of each parser is one more than the length of its text, and
-- each round takes a character of it.
pub mod Strings
pub mod Arrays
pub mod RoundTrip
mod Tests
