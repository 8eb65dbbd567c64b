-- ===== src/Common/Text.antt =====
-- Go strings as lists of bytes, and what the program uses of the package `strings`.
pub mod Equal
pub mod Prefix
pub mod Split
pub mod Order
pub mod Clean
pub use Equal.{GoString, codes, str_eq_iff, str_eq_refl, str_ne, is_empty}
unfoldable pub use Equal.{str_eq}
pub use Prefix.{Has}
unfoldable pub use Prefix.{has_prefix, contains}
unfoldable pub use Clean.{path_clean, path_join}
unfoldable pub use Split.{split, join}
unfoldable pub use Order.{str_ltb, str_leb}
