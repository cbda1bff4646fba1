-- ===== src/Json.antt =====
-- src/laige-core/json.cpp: the JSON parser and serializer, and JsonValue. A failure of the parser is a
-- value without a reason, as in the program every one is the same error code; the debug asserts are
-- left out.
pub mod Utf8
pub mod Hex
pub mod Outcome
pub mod Strings
pub mod Values
pub mod Numbers
pub mod Doubles
pub mod Parser
pub mod Plain
pub mod Printer
pub mod RoundTrip
pub mod Bounds
mod Tests
mod DocumentTests
