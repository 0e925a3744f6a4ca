-- ===== src/Display.antt =====
-- client/src/cli/display.c: what the client prints, as wide as the terminal shows it.
pub mod Utf8
pub mod Width
pub mod Truncate
pub mod Wrap
pub mod Randomart
pub mod Timestamp
pub mod Fingerprint
