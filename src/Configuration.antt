-- ===== src/Configuration.antt =====
-- What the process works out before it starts: core/concurrency/cpu.py and core/app/settings.py.
pub mod Sizing
pub mod Settings
