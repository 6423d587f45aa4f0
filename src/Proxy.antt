-- ===== src/Proxy.antt =====
-- src/proxy.py: how a chat request is answered.
pub mod Attempts
pub mod Failover
pub mod Events
pub mod Parsing
pub mod Relay
pub mod Auth
