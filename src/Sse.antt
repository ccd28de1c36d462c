-- ===== src/Sse.antt =====
-- httpx2/httpx2/_sse.py: server-sent events.
pub mod Lines
pub mod Events
pub mod Parser
