-- ===== src/Lib.antt =====
-- Models of the network programs of this repository, and theorems about them.
--
-- The programs are independent of each other: each has a main of its own and meets the others only
-- over a socket. What they share is the operating system, which is no code of this repository. Sys
-- models a program as the list of the calls that it makes with its end: a value, `exit` with a
-- status, or a last call in which it waits. What each call answers is an argument of the model, so
-- that a theorem holds for every behaviour of the kernel, the peer and the clients that its
-- hypotheses allow. Messages through printf, perror and syslog are left out, but for programs that
-- are about what they print.
--
--   - Sys: the calls and their answers, programs, sets of descriptors; Sys/Rules has rules on what a
--     program returns, Sys/Trace on what a trace reads and writes, Sys/Traces and Sys/Closing on
--     what holds of a whole trace.
--   - Decimal: sprintf with "%d" and atoi.
--   - Http: C/http_client.c. Http/Request composes the request (`message`, of the size
--     `message_size`); Http/Transfer has the calls of main in order (`exchange`), with the loops
--     `send_loop` and `receive_loop`.
--   - StrCli: str_cli of C/nonblock_stream_client.c. A round of its loop (`round`) sets up the
--     descriptor sets (`prepare`), reads from stdin (`read_stdin`) and the socket (`read_sock`), and
--     writes to stdout (`write_stdout`) and the socket (`write_sock`), on the buffers `to` and `fr`.
--     StrCli/Time has gf_time, whose text only messages show, StrCli/Fork fork_str_cli and main, and
--     StrCli/Fork/Moves its two processes side by side.
--   - Slots: the array of client sockets of the select servers.
--   - SelectServer: C/select_server.c. A round (`round`) is one pass of the loop behind select:
--     `new_connection` is the branch of the listening socket, `clients` the loop over the slots.
--   - SelectSrvBetter: C/select_srv_better.c, with the same parts; SelectSrvBetter/Reference/WholeRun
--     has a server that is only the multiset of its clients.
--   - Epoll: C/epoll_server.c, with a function for each of its functions and for each of the loops of
--     main: `accept_all`, `read_all`, `handle_events` and `event_loop`.
--   - Daytime: the loops over the addresses of getaddrinfo in Daytime/Addresses; Daytime/Tcp for
--     C/daytime_tcp_server.c and C/daytime_tcp_server_daemon.c (`tcp_listen`, `daemon_init`),
--     Daytime/Client for C/daytime_tcp_client.c, Daytime/Udp for C/daytime_udp_server.c and
--     C/daytime_udp_client.c, and Daytime/Session for the server and the client over TCP together.
--   - Passing: C/mycat.c in Passing/Mycat and C/openfile.c in Passing/Openfile, with the messages that
--     carry a descriptor in Passing/Message; Passing/Session joins parent and child of `my_open`.
--   - ForkServers: ForkServers/Accept has the loop of accept and fork (`rounds`) and ForkServers/Loop the
--     read loop of a child (`loop`), both with what differs as a parameter; ForkServers/Echo is
--     C/basic_tcp_server.c, ForkServers/Unix C/unix_stream_server.c,
--     ForkServers/Credentials C/unix_stream_credential_server.c, ForkServers/Multi
--     C/multi_conn_server.c, ForkServers/TcpUdp C/select_tcp_udp_server.c, and ForkServers/Reap the loop
--     of their handlers of SIGCHLD.
--   - Lines: Lines/Clients for the clients that send lines, C/basic_tcp_client.c, C/unix_stream_client.c,
--     C/basic_udp_client.c and C/unix_dgram_client.c, Lines/Servers for C/basic_udp_server.c and
--     C/unix_dgram_server.c, and Lines/Session for the client and the server of TCP together.
--   - Heartbeat: Heartbeat/Router for C/heartbeat_router.c, Heartbeat/Server for C/heartbeat_srv.c,
--     Heartbeat/Client for C/heartbeat_cli.c and C/heartbeat_android.c, with their starts in
--     Heartbeat/Startup and their loops in Heartbeat/Mains, and Heartbeat/Session for a client and
--     the server on one connection. The events are signals and what happens to a connection, and
--     `step` is what the handler or the main loop does then; a handler runs to its end before the
--     next event.
--   - Interfaces: C/simple_interface_info.c, with free_ifi_info on a heap in Interfaces/Release and
--     get_ifi_info in Interfaces/Listing, and the loop that prints in Interfaces/Show.
--   - Ameba: the programs of ameba/; ameba/tcp_select_server.c is modelled by SelectSrvBetter.
--   - Basics: C/basic_client.c, C/select_client.c and C/select_cli_better.c in Basics/Clients,
--     with C/select_client.c in conversation with C/select_server.c in Basics/Clients/Session,
--     C/basic_server.c in Basics/Server, C/daytime_client.c, C/daytime_server.c and
--     C/daytime_inetd.c in Basics/Times.
--   - Names: C/dns.c and C/gethostbyname.c in Names/Hosts, C/getservbyname.c in Names/Services, and
--     C/unixbind.c and C/endian.c in Names/Local. What the C library finds is a parameter.
--   - Timeouts: C/advio.c, with the handler of SIGALRM as a number.
--
-- Loops run over the list of the answers that they get, and wait in their next call where the list
-- ends, so no fuel is needed: a list of any length stands for that many rounds of an endless loop,
-- and for a loop that should end, its theorem says which answers are enough. Numbers are unbounded; a
-- theorem that depends on the digits of a number says so in its bounds. Only the counter of
-- C/heartbeat_router.c has the limit of its int. A descriptor is a natural
-- number, and a free slot, in C the value -1, is `none`. Where the behaviour of the C code is
-- undefined, the model stops with status 134, or with `none` in Heartbeat/Router, and where it reads a null pointer, with 139.
--
-- Not modelled: what the macros of C/advio.c add to its dg_cli, which does not compile or never
-- runs; the scripts of Lua/ and Python/; and of the modelled programs the texts of most messages, the
-- addresses of most sockets, and the calls that install signal handlers, but for connect_timeout.
pub mod Prelude
pub mod Sys
pub mod Decimal
pub mod Http
pub mod StrCli
pub mod Slots
pub mod SelectServer
pub mod SelectSrvBetter
pub mod Heartbeat
pub mod Epoll
pub mod Daytime
pub mod Passing
pub mod Lines
pub mod Basics
pub mod Names
pub mod Timeouts
pub mod Interfaces
pub mod Ameba
pub mod ForkServers
