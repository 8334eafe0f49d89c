-- ===== src/Ipc.antt =====
-- The server for local clients, internal/ipc.
pub mod Prompts
pub mod Watch
mod Tests
