-- ===== src/Passing/Session.antt =====
-- my_open of C/mycat.c and main of C/openfile.c together, as parent and child.
use network_pragramming.Prelude.{
  ℕ, suc, ◌%◌, ◌^◌, ◌≤◌, ◌<◌, ◌≡◌, refl, ap, sym, ◌∙◌, false, Option, none, some, List, [], ◌∷◌,
  ◌++◌, Bytes, codes, length, arith, ◌==◌, if◌then◌else◌, take_of_length-le,
}
use network_pragramming.Sys.{
  Level, Kind, Control, Message, gave, Call, Prog, returns, exits, waits, trace,
}
use network_pragramming.Decimal.{decimal, atoi, length-decimal, atoi-decimal_alone}
use network_pragramming.Passing.Message.{
  Numbered, error, value, rights_message, write_fd, read_fd, got,
}
use network_pragramming.Passing.Openfile.{openfile, greeting, exit_status}
use network_pragramming.Passing.Mycat.{
  Answers, Opened, opened, refused, exited, my_open, number_text, buf_size,
}

-- A number of at most 9 digits is passed on the command line unchanged.
atoi-number_text : (n : ℕ) → n < 10 ^ 9 → atoi (number_text n) ≡ n
atoi-number_text n h =
    rw (take_of_length-le 9 (decimal n) (length-decimal 8 n h)) (atoi-decimal_alone n (omega arith))

-- A control message as it arrives: only with SCM_RIGHTS of SOL_SOCKET, the system puts a number of
-- the receiver in place of the descriptor.
abbrev passed : (ℕ → ℕ) → Level → Kind → Control → Control
passed renamed Level.sol_socket Kind.scm_rights c = record c { data_int = renamed c.data_int }
passed renamed l k c = c

abbrev control_passed : (ℕ → ℕ) → Option Control → Option Control
control_passed renamed none = none
control_passed renamed (some c) = some (passed renamed c.level c.kind c)

-- What recvmsg gets of a message that sendmsg has sent.
abbrev pub in_transit : (ℕ → ℕ) → Message → Message
in_transit renamed m = record m { control = control_passed renamed m.control }

-- The first message that a trace sends through `sock`.
abbrev pub sent : ℕ → List Call → Option Message
sent sock [] = none
sent sock (Call.send_msg s m ∷ cs) = if s == sock then some m else sent sock cs
sent sock (c ∷ cs) = sent sock cs

-- What write_fd sends through a socket, read_fd gets back at the other end: if recvmsg gets the
-- message that write_fd gives to sendmsg, with `renamed` of a descriptor in place of each that
-- SCM_RIGHTS passes, then a read_fd with room for all of its bytes, which are one at least, stores
-- these bytes and the descriptor that stands for the one that was sent.
pub read_fd-write_fd :
    (renamed : ℕ → ℕ) (sock peer nbytes fd b : ℕ) (bytes : Bytes) (a : Numbered ℕ) (m : Message)
    → length (b ∷ bytes) ≤ nbytes
    → sent sock (trace (write_fd sock (b ∷ bytes) fd a)) ≡ some m
    → read_fd peer nbytes (value (in_transit renamed m))
      ≡ returns (Call.recv_msg peer nbytes ∷ []) (got (b ∷ bytes) (some (renamed fd)))
unfolding write_fd read_fd rights_message
read_fd-write_fd renamed sock peer nbytes fd b bytes a m h e =
    let same : rights_message (b ∷ bytes) fd ≡ m = ground arith in
    rw (← same, take_of_length-le nbytes (b ∷ bytes) h) refl

-- The files that a trace opens, with the modes.
abbrev pub opens : List Call → List (Bytes × ℕ)
opens [] = []
opens (Call.open_mode path mode ∷ cs) = (path, mode) ∷ opens cs
opens (c ∷ cs) = opens cs

-- The two runs of my_open that a fork makes of one call, in the child and in the parent. The child
-- becomes openfile, which can send its message, and ends with a status; the parent is told this
-- status, and gets the message that the child has sent, with a number of its own for the
-- descriptor.
pub record Session (path : Bytes) (mode : ℕ) (renamed : ℕ → ℕ) (child parent : Answers)
    : Type 0 where
  pub ends : ℕ × ℕ
  pub child_pair : child.pair ≡ gave ends
  pub parent_pair : parent.pair ≡ gave ends
  pub child_fork : child.forked ≡ gave 0
  pub pid : ℕ
  pub parent_fork : parent.forked ≡ gave (suc pid)
  pub executed : child.executed ≡ gave tt
  pub taken : ℕ
  pub sends : child.child.sent ≡ value taken
  pub status : ℕ
  pub calls : List Call
  pub ended : my_open path mode child ≡ exits calls status
  pub waited : parent.waited ≡ gave (exited status)
  pub delivered :
      (m : Message) → sent ends.0 calls ≡ some m → parent.message ≡ value (in_transit renamed m)

-- What open would have given to the parent: a descriptor, or -1 with errno.
abbrev pub outcome : (ℕ → ℕ) → Numbered ℕ → Opened
outcome renamed (value fd) = opened (renamed fd)
outcome renamed (error e) = refused e

abbrev pub IsErrno : Numbered ℕ → Type 0
IsErrno (value fd) = Unit
IsErrno (error e) = (0 < e) × (e < 256)

-- The status of a program that has exited.
abbrev exit_code : {A : Type 0} → Prog A → ℕ
exit_code (returns cs a) = 0
exit_code (exits cs n) = n
exit_code (waits cs) = 0

module _ (path : Bytes) (mode : ℕ) (renamed : ℕ → ℕ) (child parent : Answers)
    (s : Session path mode renamed child parent) where
  -- The calls of the child before it opens the file.
  abbrev before_open : List Call
  before_open =
      Call.socketpair
      ∷ Call.fork
      ∷ Call.close s.ends.1
      ∷ Call.exec (
          codes "./openfile"
          ∷ codes "openfile"
          ∷ number_text s.ends.0
          ∷ path
          ∷ number_text mode
          ∷ [])
      ∷ []

  child_opens :
      (fd : ℕ)
      → child.child.opened ≡ value fd
      → my_open path mode child
        ≡ exits
            (before_open
              ++ (Call.open_mode path (atoi (number_text mode))
                  ∷ Call.send_msg (atoi (number_text s.ends.0)) (rights_message greeting fd)
                  ∷ []))
            0
  unfolding my_open openfile write_fd rights_message
  child_opens fd e = rw (s.child_pair, s.child_fork, s.executed, e, s.sends) refl

  child_fails :
      (errno : ℕ)
      → child.child.opened ≡ error errno
      → my_open path mode child
        ≡ exits
            (before_open ++ (Call.open_mode path (atoi (number_text mode)) ∷ []))
            (exit_status errno)
  unfolding my_open openfile write_fd
  child_fails errno e = rw (s.child_pair, s.child_fork, s.executed, e) refl

  -- The calls of the parent until the child has ended.
  abbrev waiting : List Call
  waiting = Call.socketpair ∷ Call.fork ∷ Call.close s.ends.0 ∷ Call.wait_pid (suc s.pid) ∷ []

  parent_forked : (suc s.pid == 0) ≡ false
  parent_forked = ground arith

  parent_gets :
      (fd : ℕ)
      → s.status ≡ 0
      → parent.message ≡ value (rights_message greeting fd)
      → (ds : List Call) × (my_open path mode parent ≡ returns ds (opened fd))
  unfolding my_open read_fd rights_message
  parent_gets fd z m = (
    waiting ++ (Call.recv_msg s.ends.1 buf_size ∷ Call.close s.ends.1 ∷ []),
    rw (s.parent_pair, s.parent_fork, parent_forked, s.waited, z, m) refl,
  )

  parent_fails :
      (errno : ℕ)
      → s.status ≡ errno
      → 0 < errno
      → errno < 256
      → (ds : List Call) × (my_open path mode parent ≡ returns ds (refused errno))
  unfolding my_open
  parent_fails errno z pos small =
      let low : errno % 256 ≡ errno = omega arith in
      let test : (errno == 0) ≡ false = ground arith in
      (
        waiting ++ (Call.close s.ends.1 ∷ []),
        rw (s.parent_pair, s.parent_fork, parent_forked, s.waited, z, low, test) refl,
      )

  calls_of :
      {cs : List Call} {n : ℕ}
      → my_open path mode child ≡ exits cs n
      → (s.calls ≡ cs) × (s.status ≡ n)
  calls_of e = (ap trace (sym s.ended ∙ e), ap exit_code (sym s.ended ∙ e))

  -- The result of my_open in the parent, with what the child has opened.
  abbrev Refines : Numbered ℕ → Type 0
  Refines o =
      ((ds : List Call) × (my_open path mode parent ≡ returns ds (outcome renamed o)))
      × (opens s.calls ≡ (path, mode) ∷ [])

  Refines-case :
      (o : Numbered ℕ)
      → child.child.opened ≡ o
      → IsErrno o
      → mode < 10 ^ 9
      → s.ends.0 < 10 ^ 9
      → Refines o
  unfolding rights_message
  Refines-case (value fd) e i m l =
      let (calls, status) = calls_of (child_opens fd e) in
      let same = atoi-number_text s.ends.0 l in
      let whole = atoi-number_text mode m in
      let reached : sent s.ends.0 s.calls ≡ some (rights_message greeting fd) =
        rw (calls, same) (ground arith) in
      (
        parent_gets (renamed fd) status (s.delivered (rights_message greeting fd) reached),
        rw (calls, whole) refl,
      )
  Refines-case (error errno) e (pos, small) m l =
      let (calls, status) = calls_of (child_fails errno e) in
      let whole = atoi-number_text mode m in
      let own : s.status ≡ errno = ground (arith, status) in
      (parent_fails errno own pos small, rw (calls, whole) refl)

  -- If in both processes every call but open succeeds (socketpair, fork, execl, sendmsg, waitpid),
  -- recvmsg gets what sendmsg has sent, with a number of the parent's own for the descriptor, the
  -- descriptors and the mode have at most 9 digits, and open sets errno to a number from 1 to 255 if
  -- it fails, then my_open gives the parent what open gives the child: a descriptor that
  -- stands for the one that the child has opened, or -1 with the same errno; and the child opens
  -- the path of the parent with its mode, and nothing else.
  pub my_open-refines_open :
      IsErrno child.child.opened
      → mode < 10 ^ 9
      → s.ends.0 < 10 ^ 9
      → ((ds : List Call) × (my_open path mode parent
            ≡ returns ds (outcome renamed child.child.opened)))
        × (opens s.calls ≡ (path, mode) ∷ [])
  my_open-refines_open i m l = Refines-case child.child.opened refl i m l
