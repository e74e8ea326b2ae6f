-- ===== src/Basics/Clients.antt =====
-- C/basic_client.c, C/select_client.c and C/select_cli_better.c
pub mod Session
use network_pragramming.Prelude.{
  ℕ, Option, none, some, List, [], ◌∷◌, ◌++◌, Bytes, codes, bytes_eq, length, take, ◌==◌,
  if◌then◌else◌,
}
use network_pragramming.Sys.{
  Answer, failed, gave, Call, Prog, returns, exits, waits, exit, exit_minus_one, call, call_or_exit,
  after, ◌>>=◌, ◌>>◌, Input, read_error, end_of_file, input, read_some, write_some, c_string,
}

abbrev undefined : ℕ
undefined = 134

-- What fgets and write, or read, answer in one turn; fgets answers nothing at the end of stdin,
-- which the code does not test: send_buf is then empty.
pub record Turn : Type 0 where
  pub line : Option Bytes
  pub written : Answer ℕ
  pub reply : Answer Bytes

-- The text of send_buf behind fgets.
abbrev typed_text : Option Bytes → Bytes
typed_text none = []
typed_text (some line) = c_string line

leave : ℕ → Prog (Unit {0})
leave fd = call (Call.close fd) >> exit 0

written_case : Answer ℕ → Prog (Unit {0})
written_case (failed e) = exit exit_minus_one
written_case (gave n) = returns [] tt

-- From fgets to write.
send_line : ℕ → Turn → Prog (Unit {0})
unfolding leave written_case
send_line fd t =
    if bytes_eq (typed_text t.line) (codes "exit\n")
    then leave fd
    else (write_some fd (typed_text t.line) t.written >>= written_case)

print_reply : Bytes → Prog (Unit {0})
print_reply bytes = call (Call.put (codes "Receive message: " ++ (c_string bytes ++ codes ".\n")))

-- C/basic_client.c behind read: recv_buf[n] is the null byte of bzero, so that the loop ends after
-- one read, or lies behind the end of the array when 256 bytes are read.
reply_case : ℕ → Input → Prog (Unit {0})
unfolding leave print_reply
reply_case fd (read_error e) = exit exit_minus_one
reply_case fd end_of_file = leave fd
reply_case fd (input bytes) = if length bytes == 256 then exit undefined else print_reply bytes

basic_turn : ℕ → Turn → Prog (Unit {0})
unfolding send_line reply_case
basic_turn fd t = do send_line fd t; i ← read_some fd 256 t.reply; reply_case fd i

basic_turns : ℕ → List Turn → Prog (Unit {0})
unfolding basic_turn
basic_turns fd [] = waits []
basic_turns fd (t ∷ ts) = basic_turn fd t >> basic_turns fd ts

-- C/select_client.c behind read: "Refuse" is looked for before the result.
greeting_case : ℕ → Input → Prog (Unit {0})
unfolding leave print_reply
greeting_case fd (read_error e) = exit exit_minus_one
greeting_case fd end_of_file = leave fd
greeting_case fd (input bytes) =
    if bytes_eq (take 6 (c_string bytes)) (codes "Refuse") then leave fd else print_reply bytes

select_turn : ℕ → Turn → Prog (Unit {0})
unfolding send_line greeting_case
select_turn fd t = do i ← read_some fd 255 t.reply; greeting_case fd i; send_line fd t

select_turns : ℕ → List Turn → Prog (Unit {0})
unfolding select_turn
select_turns fd [] = waits []
select_turns fd (t ∷ ts) = select_turn fd t >> select_turns fd ts

-- What the calls before the loops answer.
pub record Setup : Type 0 where
  pub socket : Answer ℕ
  pub resolved : Answer (Unit {0})
  pub connected : Answer (Unit {0})

connecting : Bytes → Setup → Prog ℕ
connecting hostname a = do
  fd ← call_or_exit Call.socket exit_minus_one a.socket
  server ← call_or_exit (Call.resolve hostname) exit_minus_one a.resolved
  connected ← call_or_exit (Call.connect fd) exit_minus_one a.connected
  returns [] fd

-- main of C/basic_client.c, behind the test of argc.
unfoldable pub basic_client : Bytes → Setup → List Turn → Prog (Unit {0})
unfolding connecting basic_turns
basic_client hostname a ts = connecting hostname a >>= λ fd. basic_turns fd ts

-- main of C/select_client.c, behind the test of argc.
unfoldable pub select_client : Bytes → Setup → List Turn → Prog (Unit {0})
unfolding connecting select_turns
select_client hostname a ts = connecting hostname a >>= λ fd. select_turns fd ts

-- The loop of send_exchange_data in C/select_cli_better.c; it returns when a write fails.
exchanges : ℕ → List (Answer ℕ) → Prog (Unit {0})
exchanges fd [] = waits []
exchanges fd (failed e ∷ more) = call (Call.write fd (codes "test string"))
exchanges fd (gave n ∷ more) = after (Call.write fd (codes "test string") ∷ []) (exchanges fd more)

-- sock_init behind gethostbyname: a connect that fails closes the socket, and the code goes on.
connect_case : ℕ → Answer (Unit {0}) → Prog (Unit {0})
connect_case fd (failed e) = returns (Call.connect fd ∷ Call.close fd ∷ []) tt
connect_case fd (gave ok) = call (Call.connect fd)

-- When gethostbyname fails, the socket is closed and the null pointer `server` is read.
sock_init : ℕ → Setup → Answer (Unit {0}) → Prog (Unit {0})
unfolding connect_case
sock_init fd a (failed e) = exits (Call.close fd ∷ []) 139
sock_init fd a (gave server) = connect_case fd a.connected

-- When socket fails, connect and write get -1 and fail too.
no_socket : Answer (Unit {0}) → Prog (Unit {0})
no_socket (failed e) = exit 139
no_socket (gave server) = returns [] tt

exchange_with : Setup → List (Answer ℕ) → Answer ℕ → Prog (Unit {0})
unfolding exchanges sock_init no_socket
exchange_with a writes (failed e) =
    after (Call.socket ∷ Call.resolve (codes "127.0.0.1") ∷ []) (no_socket a.resolved)
exchange_with a writes (gave fd) =
    after (Call.socket ∷ Call.resolve (codes "127.0.0.1") ∷ []) (sock_init fd a a.resolved)
    >> exchanges fd writes

-- main of C/select_cli_better.c
unfoldable pub select_cli_better : Setup → List (Answer ℕ) → Prog (Unit {0})
unfolding exchange_with
select_cli_better a writes = exchange_with a writes a.socket >> exit 0
