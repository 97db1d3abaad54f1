-- ===== src/Go.antt =====
-- What the program uses of Go's language and standard library.
pub mod Text
pub mod Strconv
pub mod Fmt
pub mod Lines
pub mod Tags
