-- ===== src/Dict.antt =====
-- `std::unordered_map` (and protobuf's `Map`) as an association list. The standard leaves the
-- order of iteration open; here it is the order of insertion.
mod Laws
pub use Laws.*
mod Defs
unfoldable pub use Defs.*
