-- ===== src/Prelude.antt =====
-- The names that the other modules share, passed on from the modules below.
pub mod Base
pub mod Int
pub mod Texts
pub use Base.*
unfoldable pub use Int.{◌+ℤ◌}
pub use Int.{ℤ, pos, negsuc, pos_part, neg_part, sub_ℕ, ◌≤ℤ◌, leb_ℤ, eq_of_parts, in_int64, add64}
