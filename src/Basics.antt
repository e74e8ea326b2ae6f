-- ===== src/Basics.antt =====
-- The first examples: C/basic_client.c, C/select_client.c and C/select_cli_better.c in Clients,
-- C/basic_server.c in Server, and C/daytime_client.c, C/daytime_server.c and C/daytime_inetd.c in
-- Times.
pub mod Clients
pub mod Server
pub mod Times
mod Tests
