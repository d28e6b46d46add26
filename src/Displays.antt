-- ===== src/Displays.antt =====
-- Displays: the attempts to register one by a pairing code.
pub mod Attempts
mod Tests
