-- ===== src/Go.antt =====
-- What the program uses of the Go language and its standard library, a module for each package.
pub mod Io
pub mod Fallible
pub mod Float64
pub mod Json
pub mod Decode
pub mod ServeMux
pub mod Strconv
pub mod Time
pub mod Http
mod Tests
