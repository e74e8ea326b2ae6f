-- ===== src/Names/Services.antt =====
-- C/getservbyname.c: a client that tries the addresses of a host in order.
pub mod InOrder
use network_pragramming.Prelude.{ℕ, ◌-◌, Option, none, some, List, [], ◌∷◌, ◌++◌, Bytes, codes}
use network_pragramming.Sys.{
  Answer, failed, gave, Call, Prog, returns, exits, exit, exit_failure, call, call_or_exit, after,
  ◌>>=◌, ◌>>◌, Input, read_error, end_of_file, input, read_some, c_string,
}
use network_pragramming.Names.{Family, Ntop, inet_addrstrlen, newline}

abbrev pub buf_size : ℕ
buf_size = 256

-- printf of a null pointer is undefined.
abbrev pub undefined : ℕ
undefined = 134

-- An address of the list, with what socket and connect answer when it is tried.
pub record Candidate : Type 0 where
  pub address : Bytes
  pub socket : Answer ℕ
  pub connected : Answer (Unit {0})

-- A struct hostent, as far as it is read.
pub record Host : Type 0 where
  pub name : Bytes
  pub addresses : List Candidate

-- p_addrlist: the addresses of gethostbyname, or the one that inet_aton reads.
address_list : Bytes → Option Host → Option Candidate → Prog (List Candidate)
address_list host (some h) aton =
    returns (Call.resolve host ∷ Call.put (codes "official hostname : " ++ h.name ++ newline) ∷ [])
      h.addresses
address_list host none none = exits (Call.resolve host ∷ []) exit_failure
address_list host none (some c) = returns (Call.resolve host ∷ []) (c ∷ [])

abbrev pub trying : Bytes → Bytes
trying text = codes "trying to connect " ++ text ++ newline

-- `printf("trying to connect %s\n", inet_ntop(…))`
announce : Option Bytes → Prog (Unit {0})
announce none = exit undefined
announce (some text) = call (Call.put (trying text))

-- connect and the break, or the next address.
connected_case : ℕ → Answer (Unit {0}) → Prog ℕ → Prog ℕ
connected_case fd (gave u) later = returns [] fd
connected_case fd (failed e) later = later

-- `while (NULL != *p_addrlist)` with the test behind it.
connect_list : Ntop → ℕ → List Candidate → Prog ℕ
unfolding announce connected_case
connect_list ntop port [] = exits (Call.put (codes "unable to connect.\n") ∷ []) exit_failure
connect_list ntop port (c ∷ rest) =
    let later = connect_list ntop port rest in
    do
      fd ← call_or_exit Call.socket exit_failure c.socket
      announce (ntop Family.af_inet c.address inet_addrstrlen)
      call (Call.connect_to fd c.address port)
      connected_case fd c.connected later

-- `fputs(recvline, stdout)`: behind what read stores, the array holds null bytes.
show_input : Input → Prog (Unit {0})
show_input (read_error e) = exit exit_failure
show_input end_of_file = exits (Call.put [] ∷ []) 0
show_input (input bytes) = exits (Call.put (c_string bytes) ∷ []) 0

-- getservbyname(argv[2], "tcp") gives a port, or a null pointer.
serve_case : Ntop → Option ℕ → List Candidate → Answer Bytes → Prog (Unit {0})
unfolding connect_list show_input
serve_case ntop none candidates reply = exit exit_failure
serve_case ntop (some port) candidates reply = do
  fd ← connect_list ntop port candidates
  i ← read_some fd (buf_size - 1) reply
  show_input i

-- main over argv[1], …
unfoldable pub getservbyname :
    Ntop → List Bytes → Option Host → Option Candidate → Option ℕ → Answer Bytes → Prog (Unit {0})
unfolding address_list serve_case
getservbyname ntop (host ∷ service ∷ []) found aton port reply = do
  candidates ← address_list host found aton
  serve_case ntop port candidates reply
getservbyname ntop argv found aton port reply = exit exit_failure
