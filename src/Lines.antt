-- ===== src/Lines.antt =====
-- The clients that send the lines of stdin one by one and print each answer, and the servers that
-- send datagrams back: C/basic_tcp_client.c, C/unix_stream_client.c, C/basic_udp_client.c and
-- C/unix_dgram_client.c in Clients, C/basic_udp_server.c and C/unix_dgram_server.c in Servers.
pub mod Clients
pub mod Session
pub mod Servers
mod Tests
