-- ===== src/Protocol.antt =====
-- internal/shared/dto/protocol: the messages between browser, cloud and agent.
pub mod Terminal
pub mod Tunnel
