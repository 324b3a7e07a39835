-- ===== src/Python.antt =====
-- What the code uses of Python's own `str`, `int`, `uuid` and `base64`.
pub mod Strings
pub mod Stripping
pub mod UuidText
pub mod Hex
pub mod RoundTrip
pub mod Numbers
pub mod Base64
mod Tests
