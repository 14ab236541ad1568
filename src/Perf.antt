-- ===== src/Perf.antt =====
-- The bandwidth tests of proxy-perf: the progress meter, the senders and the receivers.
pub mod Meter
pub mod Send
pub mod Receive
pub mod Accept
pub mod Serve
pub mod Menu
pub mod Unix
