-- ===== src/Heartbeat.antt =====
-- The heartbeat programs: the router that watches a peer (C/heartbeat_router.c), the server
-- (C/heartbeat_srv.c) and its two clients (C/heartbeat_cli.c, C/heartbeat_android.c).
pub mod Router
pub mod Server
pub mod Client
pub mod Startup
pub mod Session
pub mod Mains
mod Tests
