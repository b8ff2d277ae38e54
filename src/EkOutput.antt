-- ===== src/EkOutput.antt =====
-- src/ek_output.rs: the two output formats. A writer into a buffer is a function to the text that it
-- writes; the count of bytes that the writers return, which no caller reads, is left out.
pub mod Json
pub mod Dates
pub mod Ek
pub mod Grouping
pub mod Values
pub mod Ndjson
mod Tests
