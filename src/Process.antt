-- ===== src/Process.antt =====
-- internal/agent/model/task/process: terminal sizes, launch specifications and exits.
pub mod Size
pub mod Env
pub mod Exit
