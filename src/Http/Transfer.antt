-- ===== src/Http/Transfer.antt =====
-- C/http_client.c, main: the calls of the client in order, with the loops that send the request
-- and receive the response.
pub mod Send
pub mod Receive
pub mod Total
use network_pragramming.Prelude.{
  ℕ, zero, suc, ◌+◌, ◌-◌, ◌≤◌, ◌<◌, ◌≡◌, refl, Bool, true, false, List, [], ◌∷◌, ◌++◌, Bytes,
  length, drop, arith, ltb, ◌==◌, if◌then◌else◌, codes,
}
use network_pragramming.Sys.{
  Answer, failed, gave, Call, Prog, returns, exits, waits, after, exit, call, call_or_exit, ◌>>=◌,
  ◌>>◌, exit_failure, c_string,
}
use network_pragramming.Http.Request.{Args, message, or_default}

-- `do { bytes = write(sockfd, message + sent, total - sent); … } while (sent < total);`
-- over the answers of write; the loop waits where they end.
pub send_loop : ℕ → Bytes → ℕ → List (Answer ℕ) → Prog ℕ
send_loop fd m sent [] = waits (Call.write fd (drop sent m) ∷ [])
send_loop fd m sent (failed e ∷ rest) = exits (Call.write fd (drop sent m) ∷ []) exit_failure
send_loop fd m sent (gave n ∷ rest) =
    let w = Call.write fd (drop sent m) ∷ [] in
    let more = after w (send_loop fd m (sent + n) rest) in
    if n == 0
    then returns w sent
    else if ltb (sent + n) (length m)
    then more
    else returns w (sent + n)

-- sizeof(response) - 1
abbrev pub response_size : ℕ
response_size = 4095

-- `do { bytes = read(sockfd, response + received, total - received); … } while (received < total);`
-- with the bytes received so far; read answers the bytes that it stores.
pub receive_loop : ℕ → Bytes → List (Answer Bytes) → Prog Bytes
receive_loop fd got [] = waits (Call.read fd (response_size - length got) ∷ [])
receive_loop fd got (failed e ∷ rest) =
    exits (Call.read fd (response_size - length got) ∷ []) exit_failure
receive_loop fd got (gave bytes ∷ rest) =
    let r = Call.read fd (response_size - length got) ∷ [] in
    let got' = got ++ bytes in
    let more = after r (receive_loop fd got' rest) in
    if length bytes == 0
    then returns r got
    else if ltb (length got') response_size
    then more
    else returns r got'

-- What the calls of one run answer; `host` is what gethostbyname finds, or NULL.
pub record Answers : Type 0 where
  pub socket : Answer ℕ
  pub host : Answer Bytes
  pub connected : Answer (Unit {0})
  pub writes : List (Answer ℕ)
  pub reads : List (Answer Bytes)

-- `if (received == total) error(…);`, else the response is printed.
check_complete : Bytes → Prog Bytes
check_complete got = if length got == response_size then exit exit_failure else returns [] got

-- printf("\nResponse:\n%s\n", response), which stops at the first null byte
pub printed_text : Bytes → Bytes
printed_text response = codes "\nResponse:\n" ++ c_string response ++ codes "\n"

-- main from the composed message on; it returns the response that it has stored.
unfoldable pub exchange : Bytes → Bytes → Answers → Prog Bytes
unfolding send_loop receive_loop check_complete printed_text
exchange host m a = do
  fd ← call_or_exit Call.socket exit_failure a.socket
  addr ← call_or_exit (Call.resolve host) exit_failure a.host
  connected ← call_or_exit (Call.connect fd) exit_failure a.connected
  sent ← send_loop fd m 0 a.writes
  got ← receive_loop fd [] a.reads
  response ← check_complete got
  call (Call.close fd)
  call (Call.put (printed_text response))
  returns [] response

-- printf("\nRequest:\n%s\n", message)
requested_text : Bytes → Bytes
requested_text text = codes "\nRequest:\n" ++ c_string text ++ codes "\n"

-- main over argv[1], argv[2], ...; fewer than four of them are refused. The port only goes into
-- the address of connect, which is not part of a call here.
unfoldable pub http_client : List Bytes → Answers → Prog Bytes
unfolding exchange requested_text
http_client (host ∷ port ∷ method ∷ path ∷ extra) a =
    let args : Args = record { method = method; path = path; extra = extra } in
    after (Call.put (requested_text (message args)) ∷ [])
      (exchange (or_default host (codes "localhost")) (message args) a)
http_client argv a = exit exit_failure
