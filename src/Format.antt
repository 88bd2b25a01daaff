-- ===== src/Format.antt =====
-- src/format.rs: rates, memory budgets, plane layouts and capture requests.
pub mod Rate
pub mod Pixel
pub mod Layout
pub mod Chroma
pub mod Request
