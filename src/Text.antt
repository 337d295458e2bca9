-- ===== src/Text.antt =====
-- Texts and buffers of `char`: the operations of `std::string`, `std::to_string`, `std::stoi` and
-- `std::stringstream` that the program calls. A text is the list of its bytes.
mod Equal
mod Find
mod Cut
mod Decimal
mod Stream
unfoldable pub use Equal.*
unfoldable pub use Find.*
pub use Cut.*
unfoldable pub use Decimal.*
unfoldable pub use Stream.*
