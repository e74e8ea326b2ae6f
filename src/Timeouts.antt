-- ===== src/Timeouts.antt =====
-- C/advio.c: connect with a time limit, a wait for one descriptor, and dg_cli.
pub mod Restores
mod Tests
use network_pragramming.Prelude.{
  ℕ, ◌+◌, Bool, false, Option, none, some, List, [], ◌∷◌, ◌++◌, Bytes, if◌then◌else◌, take, length,
  replicate, ◌-◌,
}
use network_pragramming.Sys.{
  Errno, Answer, failed, gave, Call, Prog, returns, exits, waits, exit_failure, call, call_or_exit,
  after, ◌>>=◌, ◌>>◌, overlay,
}

-- The handler of SIGALRM: connect_alarm, or what was there before.
abbrev pub connect_alarm : ℕ
connect_alarm = 1

-- `if (EINTR == errno) errno = ETIMEDOUT;`
timed_out : Errno → Errno
timed_out Errno.eintr = Errno.etimedout
timed_out e = e

-- errno behind close, which sets it when it fails.
errno_behind : Errno → Answer (Unit {0}) → Errno
errno_behind e (failed e') = e'
errno_behind e (gave u) = e

-- What the calls of connect_timeout answer: signal with the old handler, connect and close.
pub record Answers : Type 0 where
  pub signalled : Answer ℕ
  pub connected : Answer (Unit {0})
  pub closed : Answer (Unit {0})

-- connect and the branch of its failure.
limited_connect : ℕ → Answer (Unit {0}) → Answer (Unit {0}) → Prog (Answer (Unit {0}))
unfolding timed_out errno_behind
limited_connect fd (gave u) closed = returns (Call.connect fd ∷ []) (gave u)
limited_connect fd (failed e) closed =
    returns (Call.connect fd ∷ Call.close fd ∷ []) (failed (timed_out (errno_behind e closed)))

-- connect_timeout; its value stands for n with errno.
unfoldable pub connect_timeout : ℕ → ℕ → Answers → Prog (Answer (Unit {0}))
unfolding limited_connect
connect_timeout fd nsec a = do
  old ← call_or_exit (Call.handle_alarm connect_alarm) exit_failure a.signalled
  call (Call.alarm nsec)
  n ← limited_connect fd a.connected a.closed
  call (Call.alarm 0)
  call (Call.handle_alarm old)
  returns [] n

-- readable_timeout: what select answers for the one descriptor within `sec` seconds.
unfoldable pub readable_timeout : ℕ → ℕ → Answer ℕ → Prog (Answer ℕ)
readable_timeout fd sec a = returns (Call.select_one fd sec ∷ []) a

abbrev pub buf_size : ℕ
buf_size = 256

-- `fgets(…) < 0`: no pointer is below the null pointer.
below_null : Option Bytes → Bool
below_null line = false

-- sendline behind fgets: a line of at most 256 bytes with its null byte over what was there.
filled : Bytes → Option Bytes → Bytes
filled sendline none = sendline
filled sendline (some line) = overlay (take buf_size line ++ (0 ∷ [])) sendline

-- The loop of dg_cli over what fgets answers, with none of the macros that read the reply.
send_lines : ℕ → Bytes → List (Option Bytes) → Prog (Unit {0})
unfolding below_null filled
send_lines fd sendline [] = waits []
send_lines fd sendline (line ∷ rest) =
    let sendline' = filled sendline line in
    let later = send_lines fd sendline' rest in
    if below_null line then after (Call.send_to fd sendline' ∷ []) later else returns [] tt

unfoldable pub dg_cli : ℕ → List (Option Bytes) → Prog (Unit {0})
unfolding send_lines
dg_cli fd lines = send_lines fd (replicate (buf_size + 1) 0) lines
