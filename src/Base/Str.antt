-- ===== src/Base/Str.antt =====
-- Rust's `str` as the list of its characters (Unicode scalar values), and the operations of the
-- standard library that the program calls on it.
mod Core
mod Split
mod Words
mod Parts
unfoldable pub use Core.*
unfoldable pub use Split.*
pub use Words.*
pub use Parts.*
