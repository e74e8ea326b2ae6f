-- ===== src/Passing/Openfile.antt =====
-- C/openfile.c, main.
use network_pragramming.Prelude.{ℕ, List, [], ◌∷◌, Bytes, codes, ltb, if◌then◌else◌}
use network_pragramming.Sys.{Call, Prog, exit, exit_failure, after, ◌>>=◌}
use network_pragramming.Decimal.{atoi}
use network_pragramming.Passing.Message.{Numbered, error, value, write_fd}

-- `exit(errno > 0 ? errno : 255)`
abbrev pub exit_status : ℕ → ℕ
exit_status errno = if ltb 0 errno then errno else 255

-- The text that goes with the descriptor.
abbrev pub greeting : Bytes
greeting = codes "hellowrold"

-- What open and sendmsg answer.
pub record Answers : Type 0 where
  pub opened : Numbered ℕ
  pub sent : Numbered ℕ

sent_case : {A : Type 0} → Numbered ℕ → Prog A
sent_case (error e) = exit (exit_status e)
sent_case (value n) = exit 0

-- What follows open.
opened_case : {A : Type 0} → Bytes → Numbered ℕ → Numbered ℕ → Prog A
unfolding sent_case
opened_case sock (error e) sent = exit (exit_status e)
opened_case sock (value fd) sent = write_fd (atoi sock) greeting fd sent >>= λ r. sent_case r

-- main over all of argv; it always ends the process.
unfoldable pub openfile : {A : Type 0} → List Bytes → Answers → Prog A
unfolding opened_case
openfile (name ∷ sock ∷ file ∷ mode ∷ []) a =
    after (Call.open_mode file (atoi mode) ∷ []) (opened_case sock a.opened a.sent)
openfile argv a = exit exit_failure
