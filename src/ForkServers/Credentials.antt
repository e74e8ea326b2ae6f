-- ===== src/ForkServers/Credentials.antt =====
-- C/unix_stream_credential_server.c, which asks for the credentials of its client, with the
-- parameter of read_cred spelt cmsgcredptr, as its body spells it. Without that the file does not
-- compile.
pub mod SameWrites
use network_pragramming.Prelude.{
  ℕ, zero, suc, ◌-◌, Bool, true, false, not, Option, none, some, List, [], ◌∷◌, ◌++◌, Bytes, codes,
  take, drop, ◌==◌, if◌then◌else◌,
}
use network_pragramming.Sys.{
  Errno, is_eintr, Answer, failed, gave, Call, Prog, returns, exits, waits, exit, exit_failure,
  call, call_or_exit, after, ◌>>=◌, ◌>>◌,
}
use network_pragramming.Decimal.{decimal}
use network_pragramming.ForkServers.Accept.{Round, rounds}
use network_pragramming.ForkServers.Unix
use network_pragramming.ForkServers.Unix.{Setup, respond, fork_failed, buf_size, unix_domain_path}

-- A struct cmsgcred.
pub record Cred : Type 0 where
  pub pid : ℕ
  pub uid : ℕ
  pub gid : ℕ
  pub euid : ℕ
  pub ngroups : ℕ
  pub groups : List ℕ

-- The control message that recvmsg stores: whether cmsg_len is below CONTROL_LEN, the level and the
-- type are the right ones, and the data.
pub record Control : Type 0 where
  pub short : Bool
  pub is_socket_level : Bool
  pub is_creds : Bool
  pub cred : Cred

-- What recvmsg stores, with the control message if msg_controllen > 0, and what write answers.
pub record Turn : Type 0 where
  pub received : Answer Bytes
  pub control : Option Control
  pub written : Answer ℕ

-- The credentials behind the tests of read_cred; `none` stands for cmcred_ngroups = 0.
check_control : Option Control → Prog (Option Cred)
check_control none = returns [] none
check_control (some c) =
    if c.short
    then exit exit_failure
    else if not c.is_socket_level
    then exit exit_failure
    else if not c.is_creds
    then exit exit_failure
    else returns [] (some c.cred)

-- read_cred, with what is in recvline behind it.
read_cred : ℕ → ℕ → Answer Bytes → Option Control → Prog (Answer (Bytes × Option Cred))
unfolding check_control
read_cred fd nbytes (failed e) control = returns (Call.recv_msg fd nbytes ∷ []) (failed e)
read_cred fd nbytes (gave bytes) control = do
  returns (Call.recv_msg fd nbytes ∷ Call.received fd (take nbytes bytes) ∷ []) tt
  cred ← check_control control
  returns [] (gave (take nbytes bytes, cred))

abbrev newline : Bytes
newline = b'\n' ∷ []

-- A read behind the array of groups is undefined.
abbrev pub undefined : ℕ
undefined = 134

-- `for (i = 1; i < cred.cmcred_ngroups; i++)`, over the groups from the second on.
show_groups : ℕ → List ℕ → Prog (Unit {0})
show_groups zero groups = call (Call.put newline)
show_groups (suc n) [] = exit undefined
show_groups (suc n) (g ∷ groups) = after (Call.put (decimal g) ∷ []) (show_groups n groups)

no_credentials : Prog (Unit {0})
no_credentials = call (Call.put (codes "no credentials returned\n"))

show_number : Bytes → ℕ → Call
show_number label n = Call.put (label ++ decimal n ++ newline)

show_fields : Cred → Prog (Unit {0})
unfolding show_groups show_number
show_fields c =
    after
      (show_number (codes "PID of sender = ") c.pid
        ∷ show_number (codes "real user ID = ") c.uid
        ∷ show_number (codes "real group ID = ") c.gid
        ∷ show_number (codes "effective user ID = ") c.euid
        ∷ Call.put (decimal (c.ngroups - 1) ++ codes " groups:")
        ∷ [])
      (show_groups (c.ngroups - 1) (drop 1 c.groups))

show_cred : Option Cred → Prog (Unit {0})
unfolding no_credentials show_fields
show_cred none = no_credentials
show_cred (some c) = if c.ngroups == 0 then no_credentials else show_fields c

cred_case : ℕ → Answer (Bytes × Option Cred) → Answer ℕ → Prog (Unit {0}) → Prog (Unit {0})
unfolding show_cred
cred_case fd (failed e) w later = if is_eintr e then later else exit exit_failure
cred_case fd (gave r) w later = show_cred r.1 >> respond fd r.0 w later

-- The loop of str_echo.
unfoldable pub str_echo : ℕ → List Turn → Prog (Unit {0})
unfolding read_cred cred_case
str_echo fd [] = waits (Call.recv_msg fd buf_size ∷ [])
str_echo fd (t ∷ ts) =
    let later = str_echo fd ts in
    read_cred fd buf_size t.received t.control >>= λ r. cred_case fd r t.written later

-- main
unfoldable pub credential_server : Setup → List (Round (List Turn)) → Prog (Unit {0})
unfolding str_echo
credential_server a rs = do
  fd ← call_or_exit Call.socket exit_failure a.socket
  call (Call.unlink unix_domain_path)
  bound ← call_or_exit (Call.bind fd) exit_failure a.bound
  call (Call.listen fd 5)
  rounds str_echo fork_failed fd rs
