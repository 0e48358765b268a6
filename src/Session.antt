-- ===== src/Session.antt =====
-- internal/agent/model/task/session: the sessions that the agent stores.
pub mod State
pub mod Record
pub mod Errors
pub mod Recovery
mod Tests
