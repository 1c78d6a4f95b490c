-- ===== src/Optimized.antt =====
-- The optimised build: message_handling_optimized.c and what tp_optimized.c makes of it.
pub mod Reading
pub mod Handlers
pub mod Transfer
pub mod Codec
pub mod Dispatch
pub mod Standalone
mod Tests
