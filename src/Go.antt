-- ===== src/Go.antt =====
-- What the program uses of the Go language and its standard library.
pub mod Int64
pub mod Time
pub mod Text
pub mod Strconv
pub mod Parse
pub mod Map
pub mod Sort
