-- ===== src/Strings.antt =====
-- What the program uses of Go's package strings, on texts as sequences of code points.
mod Space
mod Pieces
mod Utf8
unfoldable pub use Space.*
unfoldable pub use Pieces.*
unfoldable pub use Utf8.*
