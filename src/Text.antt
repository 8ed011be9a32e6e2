-- ===== src/Text.antt =====
-- Go's byte strings and the functions of its `strings` package that the backend calls, as far as
-- the backend calls them. A text is the list of its bytes; `none` stands for the index -1.
mod Defs
mod Search
mod Trim
mod Cut
pub mod Equal
pub mod Words
pub mod Decimal
pub mod Sort
unfoldable pub use Defs.*
pub use Search.*
pub use Trim.*
unfoldable pub use Cut.*
