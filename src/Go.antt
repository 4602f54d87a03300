-- ===== src/Go.antt =====
-- What the program uses of Go's standard library.
pub mod Outcome
pub mod Strconv
pub mod Strings
pub mod Floats
pub mod Rand
pub mod Bits
pub mod Make
