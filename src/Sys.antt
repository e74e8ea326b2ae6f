-- ===== src/Sys.antt =====
-- The operating system as the programs see it: what a call answers, the calls that a program
-- makes, and a monad that records the calls of a program until it exits. The kernel and the C
-- library are not code of this repository: each answer is an argument of the program's model.
pub mod Rules
pub mod Trace
pub mod Closing
pub mod Traces
use network_pragramming.Prelude.{
  arith, ℕ, suc, ◌+◌, ◌&&◌, ◌≤◌, append_assoc, Bool, true, false, Option, List, [], ◌∷◌, ◌++◌, ◌≡◌,
  refl, Bytes, length, take, drop, min, ◌==◌, if◌then◌else◌,
}

-- The values of errno that some program tests. EAGAIN and EWOULDBLOCK are one value on Linux.
pub data Errno : Type 0 where
  eintr eagain einval etimedout other : Errno

abbrev pub is_eintr : Errno → Bool
is_eintr Errno.eintr = true
is_eintr e = false

abbrev pub is_eagain : Errno → Bool
is_eagain Errno.eagain = true
is_eagain e = false

-- What a call returns: -1 with errno, or a value.
pub data Answer {ℓ} (A : Type ℓ) : Type ℓ where
  failed : Errno → Answer A
  gave : A → Answer A

-- cmsg_level and cmsg_type, as far as the code tells them apart.
pub data Level : Type 0 where
  sol_socket other_level : Level

pub data Kind : Type 0 where
  scm_rights other_kind : Kind

-- A control message: the size of its data, as CMSG_LEN counts it without the header, and the int
-- that its data begins with.
pub record Control : Type 0 where
  pub size : ℕ
  pub level : Level
  pub kind : Kind
  pub data_int : ℕ

-- What sendmsg sends and recvmsg gets; `none` stands for CMSG_FIRSTHDR = NULL.
pub record Message : Type 0 where
  pub bytes : Bytes
  pub control : Option Control

-- The calls that change something outside the program, with the descriptors and bytes they get.
-- Logging through printf, perror and syslog is left out. `received`, `accepted` and `nonblocking`
-- are no calls: they note the bytes that a read stored, those that a write handed over, and that an
-- fcntl has made a descriptor non-blocking.
pub data Call : Type 0 where
  socket : Call
  set_reuseaddr : ℕ → Call
  bind : ℕ → Call
  listen : ℕ → ℕ → Call
  connect : ℕ → Call
  accept : ℕ → Call
  get_flags : ℕ → Call
  set_nonblock : ℕ → Call
  nonblocking : ℕ → Call
  epoll_create : Call
  epoll_wait : ℕ → Call
  epoll_add : ℕ → ℕ → Call
  resolve : Bytes → Call
  select : Call
  read : ℕ → ℕ → Call
  received : ℕ → Bytes → Call
  write : ℕ → Bytes → Call
  accepted : ℕ → Bytes → Call
  shutdown_wr : ℕ → Call
  close : ℕ → Call
  recv_from : ℕ → ℕ → Call
  send_to : ℕ → Bytes → Call
  put : Bytes → Call
  open_file : Bytes → Call
  open_mode : Bytes → ℕ → Call
  socketpair : Call
  exec : List Bytes → Call
  recv_msg : ℕ → ℕ → Call
  send_msg : ℕ → Message → Call
  unlink : Bytes → Call
  kill_parent : Call
  pause : Call
  ioctl : ℕ → Call
  alarm : ℕ → Call
  set_owner : ℕ → Call
  chdir : Bytes → Call
  setsid : Call
  fork : Call
  wait_child : Call
  wait_pid : ℕ → Call
  connect_to : ℕ → Bytes → ℕ → Call
  bind_to : ℕ → Bytes → Call
  handle_alarm : ℕ → Call
  select_one : ℕ → ℕ → Call
  send_urgent : ℕ → ℕ → Call

-- A program that has run to a value, has left by `exit`, or waits in its last call because the
-- answers end there, with its calls in order.
pub data Prog (A : Type 0) : Type 0 where
  returns : List Call → A → Prog A
  exits : List Call → ℕ → Prog A
  waits : List Call → Prog A

abbrev pub trace : {A : Type 0} → Prog A → List Call
trace (returns cs a) = cs
trace (exits cs n) = cs
trace (waits cs) = cs

abbrev pub after : {A : Type 0} → List Call → Prog A → Prog A
after cs (returns ds a) = returns (cs ++ ds) a
after cs (exits ds n) = exits (cs ++ ds) n
after cs (waits ds) = waits (cs ++ ds)

-- What comes before a program that returns is part of its trace.
pub after-eq-returns :
    {A : Type 0} (cs : List Call) (p : Prog A) {ds : List Call} {a : A}
    → after cs p ≡ returns ds a
    → (es : List Call) × (p ≡ returns es a) × (ds ≡ cs ++ es)
after-eq-returns cs (returns es b) h = (es, ground arith, ground arith)
after-eq-returns cs (exits es n) h = ground arith
after-eq-returns cs (waits es) h = ground arith

abbrev pub pure : {A : Type 0} → A → Prog A
pure a = returns [] a

abbrev pub exit : {A : Type 0} → ℕ → Prog A
exit n = exits [] n

infixl 5 ◌>>=◌ ◌>>◌
abbrev pub ◌>>=◌ : {A B : Type 0} → Prog A → (A → Prog B) → Prog B
returns cs a >>= f = after cs (f a)
exits cs n >>= f = exits cs n
waits cs >>= f = waits cs

abbrev pub ◌>>◌ : {B : Type 0} → Prog (Unit {0}) → Prog B → Prog B
m >> k = m >>= λ _. k

-- A call whose result the code does not look at.
abbrev pub call : Call → Prog (Unit {0})
call c = returns (c ∷ []) tt

-- A call whose failure ends the program with the given status.
abbrev pub call_or_exit : {A : Type 0} → Call → ℕ → Answer A → Prog A
call_or_exit c status (failed e) = exits (c ∷ []) status
call_or_exit c status (gave a) = returns (c ∷ []) a

-- The statuses of exit(EXIT_FAILURE) and exit(-1).
abbrev pub exit_failure : ℕ
exit_failure = 1

abbrev pub exit_minus_one : ℕ
exit_minus_one = 255

-- read(fd, …, count) with its answer: at most `count` bytes are stored.
pub data Input : Type 0 where
  read_error : Errno → Input
  end_of_file : Input
  input : Bytes → Input

-- The three cases of the result n of read: n < 0, n == 0 and n > 0.
abbrev pub input_cases : Bytes → Input
input_cases [] = end_of_file
input_cases (b ∷ bytes) = input (b ∷ bytes)

abbrev pub read_some : ℕ → ℕ → Answer Bytes → Prog Input
read_some fd count (failed e) = returns (Call.read fd count ∷ []) (read_error e)
read_some fd count (gave bytes) =
    let stored = take count bytes in
    returns (Call.read fd count ∷ Call.received fd stored ∷ []) (input_cases stored)

-- write(fd, bytes, …) with its answer: at most all of them are accepted.
abbrev pub write_some : ℕ → Bytes → Answer ℕ → Prog (Answer ℕ)
write_some fd bytes (failed e) = returns (Call.write fd bytes ∷ []) (failed e)
write_some fd bytes (gave n) =
    let k = min n (length bytes) in
    returns (Call.write fd bytes ∷ Call.accepted fd (take k bytes) ∷ []) (gave k)

-- A set of descriptors, with FD_SET, FD_CLR and FD_ISSET (application).
abbrev pub FdSet : Type 0
FdSet = ℕ → Bool

abbrev pub fd_set : ℕ → FdSet → FdSet
fd_set fd fds d = if d == fd then true else fds d

abbrev pub fd_clr : ℕ → FdSet → FdSet
fd_clr fd fds d = if d == fd then false else fds d

-- What select leaves in the set of descriptors to read: those of them that are ready.
abbrev pub fd_ready : FdSet → FdSet → FdSet
fd_ready fds ready d = fds d && ready d

-- The text in a buffer: the bytes before the first null byte.
abbrev pub c_string : Bytes → Bytes
c_string [] = []
c_string (b ∷ bytes) = if b == 0 then [] else b ∷ c_string bytes

-- A buffer with new bytes at its start: what was in it stays behind them.
abbrev pub overlay : Bytes → Bytes → Bytes
overlay new old = new ++ drop (length new) old
