-- ===== src/ForkServers.antt =====
-- The servers that fork a process for each connection: the loops that they share in Accept and Loop,
-- C/basic_tcp_server.c in Echo, C/unix_stream_server.c in Unix, C/unix_stream_credential_server.c in
-- Credentials, C/multi_conn_server.c in Multi, and C/select_tcp_udp_server.c in TcpUdp. fork answers 0 in the child, whose run goes on from there.
pub mod Accept
pub mod Loop
pub mod Echo
pub mod Unix
pub mod Credentials
pub mod Reap
pub mod Multi
pub mod TcpUdp
mod Tests
