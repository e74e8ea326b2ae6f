-- ===== src/Passing/Mycat.antt =====
-- C/mycat.c: my_open and main.
pub mod Copies
use network_pragramming.Prelude.{
  ℕ, ◌%◌, Option, none, some, List, [], ◌∷◌, Bytes, codes, take, ltb, ◌==◌, if◌then◌else◌,
}
use network_pragramming.Sys.{
  Message, Answer, failed, gave, Call, Prog, returns, exits, waits, exit, exit_failure, call, after,
  ◌>>=◌, ◌>>◌, Input, read_error, end_of_file, input, read_some, write_some,
}
use network_pragramming.Decimal.{decimal}
use network_pragramming.Passing.Message.{Numbered, error, value, Received, unread, got, read_fd}
use network_pragramming.Passing.Openfile
use network_pragramming.Passing.Openfile.{openfile}

abbrev pub buf_size : ℕ
buf_size = 256

-- How a child has ended: by exit with a status, or otherwise.
pub data Ended : Type 0 where
  exited : ℕ → Ended
  killed : Ended

-- What my_open returns: a descriptor; -1 with a number in errno; -1 as read_fd stores it; or the
-- value of a variable that nothing has set.
pub data Opened : Type 0 where
  opened : ℕ → Opened
  refused : ℕ → Opened
  not_passed : Opened
  unset : Opened

-- What the calls of my_open answer; fork answers 0 in the child, which goes on as openfile.
pub record Answers : Type 0 where
  pub pair : Answer (ℕ × ℕ)
  pub forked : Answer ℕ
  pub waited : Answer Ended
  pub message : Numbered Message
  pub executed : Answer (Unit {0})
  pub child : Openfile.Answers

-- snprintf into an array of 10 bytes.
abbrev pub number_text : ℕ → Bytes
number_text n = take 9 (decimal n)

-- The child behind fork; a failed execl comes back.
child_process : Bytes → ℕ → ℕ × ℕ → Answers → Prog Opened
child_process path mode (s0, s1) a =
    after
      (Call.close s1
        ∷ Call.exec
            (codes "./openfile" ∷ codes "openfile" ∷ number_text s0 ∷ path ∷ number_text mode ∷ [])
        ∷ [])
      (executed_case a.executed)
  where
    executed_case : Answer (Unit {0}) → Prog Opened
    executed_case (failed e) = exit exit_failure
    executed_case (gave u) =
        openfile (codes "openfile" ∷ number_text s0 ∷ path ∷ number_text mode ∷ []) a.child

-- The value of `fd` behind read_fd.
passed : Received → Opened
passed unread = unset
passed (got bytes none) = not_passed
passed (got bytes (some fd)) = opened fd

-- `if (0 == (status = WEXITSTATUS(status)))`: the system keeps the low 8 bits of a status.
exited_case : ℕ → ℕ → Numbered Message → Prog Opened
unfolding passed
exited_case s1 status m =
    if status % 256 == 0
    then (read_fd s1 buf_size m >>= λ r. returns (Call.close s1 ∷ []) (passed r))
    else returns (Call.close s1 ∷ []) (refused (status % 256))

waited_case : ℕ → Answer Ended → Numbered Message → Prog Opened
unfolding exited_case
waited_case s1 (failed e) m = exit exit_failure
waited_case s1 (gave killed) m = exit exit_failure
waited_case s1 (gave (exited status)) m = exited_case s1 status m

-- The parent behind fork.
parent_process : ℕ → ℕ × ℕ → Answers → Prog Opened
unfolding waited_case
parent_process pid (s0, s1) a =
    after (Call.close s0 ∷ Call.wait_pid pid ∷ []) (waited_case s1 a.waited a.message)

forked_case : Bytes → ℕ → ℕ × ℕ → Answer ℕ → Answers → Prog Opened
unfolding child_process parent_process
forked_case path mode s (failed e) a = exits (Call.fork ∷ []) exit_failure
forked_case path mode s (gave pid) a =
    after (Call.fork ∷ [])
      (if pid == 0 then child_process path mode s a else parent_process pid s a)

pair_case : Bytes → ℕ → Answer (ℕ × ℕ) → Answers → Prog Opened
unfolding forked_case
pair_case path mode (failed e) a = exits (Call.socketpair ∷ []) exit_failure
pair_case path mode (gave s) a = after (Call.socketpair ∷ []) (forked_case path mode s a.forked a)

unfoldable pub my_open : Bytes → ℕ → Answers → Prog Opened
unfolding pair_case
my_open path mode a = pair_case path mode a.pair a

-- A read of the copying loop, and the write of what it has stored.
pub record Copied : Type 0 where
  pub read : Answer Bytes
  pub written : Answer ℕ

-- What follows one read; the result of write is not looked at.
copy_case : Input → Answer ℕ → Prog (Unit {0}) → Prog (Unit {0})
copy_case (read_error e) w later = exit 0
copy_case end_of_file w later = exit 0
copy_case (input bytes) w later = write_some 1 bytes w >>= λ _. later

-- `while ((n = read(fd, buff, BUF_SIZE)) > 0) write(STDOUT_FILENO, buff, n);` and exit.
pub copy_all : ℕ → List Copied → Prog (Unit {0})
unfolding copy_case
copy_all fd [] = waits (Call.read fd buf_size ∷ [])
copy_all fd (c ∷ cs) =
    let later = copy_all fd cs in read_some fd buf_size c.read >>= λ i. copy_case i c.written later

-- The behaviour of the program is undefined from here on: the unset variable is a descriptor.
abbrev undefined : ℕ
undefined = 134

-- `if ((fd = my_open(argv[1], O_RDONLY)) < 0)`
opened_case : Opened → List Copied → Prog (Unit {0})
unfolding copy_all
opened_case (opened fd) cs = copy_all fd cs
opened_case (refused e) cs = exit exit_failure
opened_case not_passed cs = exit exit_failure
opened_case unset cs = exit undefined

-- O_RDONLY
abbrev pub o_rdonly : ℕ
o_rdonly = 0

-- main over argv[1], argv[2], …
unfoldable pub mycat : List Bytes → Answers → List Copied → Prog (Unit {0})
unfolding my_open opened_case
mycat (path ∷ []) a cs = my_open path o_rdonly a >>= λ o. opened_case o cs
mycat argv a cs = exit exit_failure
