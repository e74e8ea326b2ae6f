-- ===== src/Daytime/Client.antt =====
-- C/daytime_tcp_client.c: tcp_connect, and the client that prints what the server sends.
pub mod Prints
use network_pragramming.Prelude.{
  ℕ, Bool, true, false, Option, none, some, List, [], ◌∷◌, ◌++◌, Bytes, length, take, ◌==◌,
  if◌then◌else◌,
}
use network_pragramming.Sys.{
  Answer, failed, gave, Call, Prog, returns, exits, waits, exit, exit_failure, call, after, ◌>>=◌,
  ◌>>◌, Input, read_error, end_of_file, input, read_some, c_string,
}
use network_pragramming.Daytime.Addresses.{Address, Found, search_found}

-- The behaviour of the program is undefined from here on.
abbrev pub undefined : ℕ
undefined = 134

-- connect; 0 leaves the loop.
connect_case : ℕ → Answer (Unit {0}) → Prog Bool
connect_case fd (gave u) = returns (Call.connect fd ∷ []) true
connect_case fd (failed e) = returns (Call.connect fd ∷ []) false

-- The body of the loop of tcp_connect behind socket.
join_connect : Address → ℕ → Prog Bool
unfolding connect_case
join_connect a fd = connect_case fd a.joined

-- tcp_connect. Its test `n == getaddrinfo(…)` compares the result with a variable that nothing has
-- set; `same` tells whether they are equal. If they are not, a failure is not noticed, and `res`
-- is undefined. When no address can be connected, the last socket is returned, which is closed.
pub tcp_connect : Bytes → Bool → Answer Found → Prog ℕ
unfolding search_found join_connect
tcp_connect serv true found = exits (Call.resolve serv ∷ []) exit_failure
tcp_connect serv false (failed e) = exits (Call.resolve serv ∷ []) undefined
tcp_connect serv false (gave found) = do
  call (Call.resolve serv)
  r ← search_found join_connect found
  returns [] r.0

-- sizeof(recv_line)
abbrev pub buf_size : ℕ
buf_size = 256

-- `recv_line[n] = '\0'; fputs(recv_line, stdout);` behind a read of n bytes: with n = 256 the null
-- byte is written behind the array.
print_line : Bytes → Prog (Unit {0})
print_line bytes =
    if length bytes == buf_size then exit undefined else call (Call.put (c_string bytes))

-- What follows one read; the loop ends the program at the end of the file and at an error.
line_case : Input → Prog (Unit {0}) → Prog (Unit {0})
unfolding print_line
line_case (read_error e) later = exit 0
line_case end_of_file later = exit 0
line_case (input bytes) later = print_line bytes >> later

-- `while ((n = read(sockfd, recv_line, BUF_SIZE)) > 0)` up to the end of main.
pub print_all : ℕ → List (Answer Bytes) → Prog (Unit {0})
unfolding line_case
print_all fd [] = waits (Call.read fd buf_size ∷ [])
print_all fd (a ∷ rest) =
    let later = print_all fd rest in read_some fd buf_size a >>= λ i. line_case i later

-- getpeername, with whether the family of the address is known, and then the loop.
pub talk : ℕ → Answer Bool → List (Answer Bytes) → Prog (Unit {0})
unfolding print_all
talk fd (failed e) reads = exit exit_failure
talk fd (gave false) reads = exit exit_failure
talk fd (gave true) reads = print_all fd reads

-- main over argv[1], argv[2], …
unfoldable pub daytime_tcp_client :
    List Bytes → Bool → Answer Found → Answer Bool → List (Answer Bytes) → Prog (Unit {0})
unfolding tcp_connect talk
daytime_tcp_client (host ∷ serv ∷ []) same found peer reads =
    tcp_connect serv same found >>= λ fd. talk fd peer reads
daytime_tcp_client argv same found peer reads = exit 0
