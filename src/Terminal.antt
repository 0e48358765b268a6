-- ===== src/Terminal.antt =====
-- internal/agent/application/task/terminal: live terminal sessions and their browser clients.
pub mod Outbound
pub mod Client
pub mod Replay
pub mod Runtime
pub mod Control
pub mod Exit
pub mod Registry
