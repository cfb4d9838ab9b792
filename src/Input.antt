-- ===== src/Input.antt =====
-- src/io/input.c: the two input formats. A stream is the text that it gives before its end, and whether
-- it ends in a read error (`ferror`).
pub mod Text
pub mod Csv
pub mod Files
pub mod Tokens
pub mod Decimal
pub mod Header
pub mod Rows
pub mod Accepted
pub mod Reports
