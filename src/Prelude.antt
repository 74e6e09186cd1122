-- ===== src/Prelude.antt =====
-- The names that the other modules share: the libraries', passed on, and those of the children.
pub mod Tests
pub mod Order
pub mod Lex
pub mod Sorting
pub mod Stable
pub mod Dict
pub mod Text
pub mod Result
