-- ===== src/Qmp.antt =====
-- The QMP scripts of migrate-proxy and migrate-websocket (`unix-send-*.py`, `unix-receive-*.py`):
-- the monitoring loop, and the commands that each script issues.
pub mod Monitor
pub mod Session
