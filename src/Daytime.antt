-- ===== src/Daytime.antt =====
-- The daytime programs, which find their addresses with getaddrinfo: C/daytime_tcp_server.c and
-- C/daytime_tcp_server_daemon.c in Tcp, C/daytime_tcp_client.c in Client, and
-- C/daytime_udp_server.c and C/daytime_udp_client.c in Udp;
-- Session has the server and the client over TCP together.
pub mod Addresses
pub mod Tcp
pub mod Client
pub mod Udp
pub mod Session
mod Tests
