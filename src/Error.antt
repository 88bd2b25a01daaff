-- ===== src/Error.antt =====
-- The error contract of src/error.rs: the kinds and hints with their stable codes, the error value
-- and its constructors. Messages, sources and nested causes are text for the reader: they are left out.
-- Of the crate only the equality of two errors reads them, which the device watcher uses.
mod Kinds
mod Hints
mod Uvc
pub mod Codes
mod Tests
pub mod Recovery
unfoldable pub use Kinds.*
unfoldable pub use Hints.*
