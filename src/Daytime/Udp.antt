-- ===== src/Daytime/Udp.antt =====
-- C/daytime_udp_server.c and C/daytime_udp_client.c: udp_server, udp_client and the loops of both
-- programs. The addresses of datagrams are left out; what is known of them only goes to messages.
pub mod Answers
use network_pragramming.Prelude.{
  ℕ, Bool, true, false, Option, none, some, List, [], ◌∷◌, ◌++◌, ◌-◌, Bytes, length, take, codes,
  leb, if◌then◌else◌,
}
use network_pragramming.Sys.{
  Answer, failed, gave, Call, Prog, returns, exits, waits, exit, exit_failure, call, after, ◌>>=◌,
  ◌>>◌, c_string,
}
use network_pragramming.Daytime.Addresses.{Address, Found, search_found}

-- The behaviour of the program is undefined from here on.
abbrev pub undefined : ℕ
undefined = 134

-- bind; 0 leaves the loop.
bind_case : ℕ → Answer (Unit {0}) → Prog Bool
bind_case fd (gave u) = returns (Call.bind fd ∷ []) true
bind_case fd (failed e) = returns (Call.bind fd ∷ []) false

-- The body of the loop of udp_server behind socket.
join_udp : Address → ℕ → Prog Bool
unfolding bind_case
join_udp a fd = bind_case fd a.joined

-- `if (NULL == res)` behind the loop.
or_fail : ℕ × Bool → Prog ℕ
or_fail (fd, true) = returns [] fd
or_fail (fd, false) = exit exit_failure

pub udp_server : Bytes → Answer Found → Prog ℕ
unfolding search_found join_udp or_fail
udp_server serv (failed e) = exits (Call.resolve serv ∷ []) exit_failure
udp_server serv (gave found) = do
  call (Call.resolve serv)
  r ← search_found join_udp found
  or_fail r

-- sizeof(buf)
abbrev pub buf_size : ℕ
buf_size = 256

-- What recvfrom answers in one round, and what ctime makes of the time.
pub record Datagram : Type 0 where
  pub received : Answer Bytes
  pub now : Bytes

-- "%.24s\n"
abbrev pub date_text : Bytes → Bytes
date_text now = take 24 now ++ (10 ∷ [])

-- `buf[n] = '\0'` stays inside the buffer.
ends_inside : Answer Bytes → Bool
ends_inside (failed e) = false
ends_inside (gave bytes) = leb (length bytes) (buf_size - 1)

-- One round of the loop: `buf[n] = '\0'` is undefined when recvfrom fails, with n = -1, and when
-- the datagram fills the buffer.
pub answer_round : ℕ → Datagram → Prog (Unit {0})
unfolding ends_inside
answer_round fd d =
    if ends_inside d.received
    then returns (Call.recv_from fd buf_size ∷ Call.send_to fd (date_text d.now) ∷ []) tt
    else exits (Call.recv_from fd buf_size ∷ []) undefined

-- The loop of main.
pub answer_rounds : ℕ → List Datagram → Prog (Unit {0})
unfolding answer_round
answer_rounds fd [] = waits (Call.recv_from fd buf_size ∷ [])
answer_rounds fd (d ∷ ds) = answer_round fd d >> answer_rounds fd ds

-- main of C/daytime_udp_server.c over argv[1], argv[2], …
unfoldable pub daytime_udp_server : List Bytes → Answer Found → List Datagram → Prog (Unit {0})
unfolding udp_server answer_rounds
daytime_udp_server (serv ∷ []) found ds = udp_server serv found >>= λ fd. answer_rounds fd ds
daytime_udp_server (host ∷ serv ∷ []) found ds = udp_server serv found >>= λ fd. answer_rounds fd ds
daytime_udp_server argv found ds = exit exit_failure

-- The loop of udp_client: the first address on which socket succeeds. Here the loop does advance.
-- `sockets` has what socket answers on each address in turn.
pub first_socket : List (Answer ℕ) → Prog ℕ
first_socket [] = exit exit_failure
first_socket (failed e ∷ rest) = after (Call.socket ∷ []) (first_socket rest)
first_socket (gave fd ∷ rest) = returns (Call.socket ∷ []) fd

pub udp_client : Bytes → Answer (List (Answer ℕ)) → Prog ℕ
unfolding first_socket
udp_client serv (failed e) = exits (Call.resolve serv ∷ []) exit_failure
udp_client serv (gave sockets) = after (Call.resolve serv ∷ []) (first_socket sockets)

-- `recv_line[n] = '\0'; fputs(recv_line, stdout);` and exit.
print_reply : ℕ → Answer Bytes → Prog (Unit {0})
unfolding ends_inside
print_reply fd (failed e) = exits (Call.recv_from fd buf_size ∷ []) undefined
print_reply fd (gave bytes) =
    if ends_inside (gave bytes)
    then exits (Call.recv_from fd buf_size ∷ Call.put (c_string bytes) ∷ []) 0
    else exits (Call.recv_from fd buf_size ∷ []) undefined

-- main of C/daytime_udp_client.c; `sizeof("hello")` counts the null byte.
unfoldable pub daytime_udp_client :
    List Bytes → Answer (List (Answer ℕ)) → Answer Bytes → Prog (Unit {0})
unfolding udp_client print_reply
daytime_udp_client (host ∷ serv ∷ []) sockets reply = do
  fd ← udp_client serv sockets
  call (Call.send_to fd (codes "hello" ++ (0 ∷ [])))
  print_reply fd reply
daytime_udp_client argv sockets reply = exit exit_failure
