-- ===== src/Heartbeat/Router.antt =====
-- C/heartbeat_router.c: the counter of missed heartbeats, kept in a file as decimal text, and the
-- signal handler that resets the peer when it reaches its limit. The parent takes SIGALRM; main
-- forks a child for each connection, whose servlet takes SIGURG. Each process has its own copy of
-- the variables, and all use the file.
pub mod Count
pub mod Once
use network_pragramming.Prelude.{
  ℕ, zero, suc, ◌+◌, ◌^◌, ◌||◌, Bool, true, false, not, ◌&&◌, Option, none, some, List, [], ◌∷◌,
  ◌++◌, Bytes, take, get_elem?, set, ltb, ◌==◌, if◌then◌else◌,
}
use network_pragramming.Decimal.{decimal, atoi}

abbrev pub alarm_interval : ℕ
alarm_interval = 2

abbrev pub peer_expire_cnt : ℕ
peer_expire_cnt = 30

-- What a process does beside the file: alarm, send(cli_fd, "s", 1, MSG_OOB), close(cli_fd),
-- kill(child_pid, SIGKILL), system("echo 1 > /sys/android/reboot"), wait(0).
pub data Effect : Type 0 where
  alarm : ℕ → Effect
  reply : Effect
  close_client : Effect
  kill_child : ℕ → Effect
  reboot : Effect
  reap_child : Effect

-- The variables of a process that its handler uses.
pub record Process : Type 0 where
  pub already_reset : Bool
  pub child_pid : ℕ

-- The signals, with the byte that recv gets with SIGURG.
pub data Signal : Type 0 where
  sigurg : ℕ → Signal
  sigalrm : Signal
  sigchld : Signal

-- Whether open succeeds for the file, and then read or write, which move all the bytes or none.
pub record Access : Type 0 where
  pub opened : Bool
  pub moved : Bool

-- An int is below this.
abbrev pub int_limit : ℕ
int_limit = 2 ^ 31

-- write_expire_cnt: O_TRUNC empties the file, and the text is written with its null byte. The
-- result is the new content of the file.
pub write_expire_cnt : Access → ℕ → Bytes → Bytes
write_expire_cnt a v file =
    if a.opened then (if a.moved then decimal v ++ (0 ∷ []) else []) else file

pub has_null : Bytes → Bool
has_null [] = false
has_null (c ∷ s) = (c == 0) || has_null s

-- atoi(str), behind a read that has stored `text` at the start of str, which nothing has set
-- before; `none` stands for undefined behaviour: no null byte is known to end the text, or no int
-- has the value.
number_in : Bytes → Option ℕ
unfolding has_null
number_in text = if has_null text && ltb (atoi text) int_limit then some (atoi text) else none

-- read_expire_cnt: at most 25 bytes of the file, read as a number; when open or read fails, str is
-- read unset.
pub read_expire_cnt : Access → Bytes → Option ℕ
unfolding number_in
read_expire_cnt a file = if a.opened && a.moved then number_in (take 25 file) else none

-- The uses of the file in one call of the handler: the read, the write of 0 and the write of the
-- count.
pub record Accesses : Type 0 where
  pub read : Access
  pub reset : Access
  pub last : Access

-- What a handler leaves: the file, the variables and what it did.
pub record Handled : Type 0 where
  pub file : Bytes
  pub process : Process
  pub effects : List Effect

-- `if (PEER_EXPIRE_CNT == expire_cnt && 0 == already_reset)`
pub is_due : ℕ → Process → Bool
is_due expire_cnt p = (peer_expire_cnt == expire_cnt) && not p.already_reset

kill_effects : ℕ → List Effect
kill_effects child_pid = if ltb 0 child_pid then kill_child child_pid ∷ [] else []

-- The body of that `if`.
reset_peer : Access → Bytes → Process → Handled
unfolding kill_effects write_expire_cnt
reset_peer a file p = record {
  file = write_expire_cnt a 0 file;
  process = record p { already_reset = true };
  effects = close_client ∷ (kill_effects p.child_pid ++ (reboot ∷ []));
}

-- SIGALRM behind read_expire_cnt; `none` where `++expire_cnt` overflows.
count_on : Accesses → Bytes → Process → ℕ → Option Handled
unfolding is_due reset_peer
count_on x file p expire_cnt =
    let h =
      if is_due expire_cnt p
      then reset_peer x.reset file p
      else record { file = file; process = p; effects = [] } in
    if ltb (expire_cnt + 1) int_limit
    then some (record h {
      file = write_expire_cnt x.last (expire_cnt + 1) h.file;
      effects = alarm alarm_interval ∷ h.effects;
    })
    else none

alarm_case : Accesses → Bytes → Process → Option ℕ → Option Handled
unfolding count_on
alarm_case x file p none = none
alarm_case x file p (some expire_cnt) = count_on x file p expire_cnt

-- sig_handler; `none` stands for undefined behaviour.
pub sig_handler : Accesses → Signal → Bytes → Process → Option Handled
unfolding alarm_case
sig_handler x (sigurg c) file p = some (record {
  file = write_expire_cnt x.reset 0 file;
  process = record p { already_reset = false };
  effects = if c == b'c' then reply ∷ [] else [];
})
sig_handler x sigalrm file p = alarm_case x file p (read_expire_cnt x.read file)
sig_handler x sigchld file p = some (record { file = file; process = p; effects = reap_child ∷ [] })

-- The processes and the file.
pub record World : Type 0 where
  pub file : Bytes
  pub parent : Process
  pub children : List Process

-- The timer, with what the file answers; a connection, which main hands to a child with the given process id, or for which
-- fork fails; a byte of urgent data at a child, with what the file answers; and the end of a child's connection.
pub data Event : Type 0 where
  timer : Accesses → Event
  connection : ℕ → Event
  fork_failed : Event
  urgent : ℕ → ℕ → Accesses → Event
  hangup : ℕ → Event

-- What the parent and the children do.
pub record Done : Type 0 where
  pub by_parent : List Effect
  pub by_child : List Effect

abbrev nothing : Done
nothing = record { by_parent = []; by_child = [] }

abbrev remove : ℕ → List Process → List Process
remove i [] = []
remove zero (p ∷ ps) = ps
remove (suc i) (p ∷ ps) = p ∷ remove i ps

-- What a signal at child `i` leaves.
at_child : World → ℕ → Option Handled → Option (World × Done)
at_child w i none = none
at_child w i (some h) = some (
  record w { file = h.file; children = set w.children i h.process },
  record { by_parent = []; by_child = h.effects },
)

-- SIGURG at a child.
child_urgent : World → ℕ → ℕ → Accesses → Option Process → Option (World × Done)
unfolding sig_handler at_child
child_urgent w i c x none = some (w, nothing)
child_urgent w i c x (some p) = at_child w i (sig_handler x (sigurg c) w.file p)

-- What a signal at the parent leaves, where a child has done `es` before.
at_parent : World → List Effect → Option Handled → Option (World × Done)
at_parent w es none = none
at_parent w es (some h) = some (
  record w { file = h.file; parent = h.process },
  record { by_parent = h.effects; by_child = es },
)

no_access : Accesses
no_access =
    let a : Access = record { opened = false; moved = false } in
    record { read = a; reset = a; last = a }

-- The rest of servlet behind its recv, and SIGCHLD at the parent, which does not use the file.
child_exit : World → ℕ → Option Process → Option (World × Done)
unfolding sig_handler at_parent no_access
child_exit w i none = some (w, nothing)
child_exit w i (some p) =
    at_parent (record w { children = remove i w.children }) (reboot ∷ close_client ∷ [])
      (sig_handler no_access sigchld w.file w.parent)

-- A connection: the child starts with a copy of the parent's variables, and the parent stores its
-- process id in child_pid. A fork that fails stores -1 there, here 0: the code asks only whether
-- it is positive.
pub step : World → Event → Option (World × Done)
unfolding child_urgent child_exit
step w (timer x) = at_parent w [] (sig_handler x sigalrm w.file w.parent)
step w (connection pid) = some (
  record w { parent = record (w.parent) { child_pid = pid }; children = w.parent ∷ w.children },
  record { by_parent = close_client ∷ []; by_child = [] },
)
step w fork_failed = some (
  record w { parent = record (w.parent) { child_pid = 0 } },
  record { by_parent = close_client ∷ []; by_child = [] },
)
step w (urgent i c x) = child_urgent w i c x (get_elem? w.children i)
step w (hangup i) = child_exit w i (get_elem? w.children i)

-- The calls of system("echo 1 > /sys/android/reboot") among some effects.
abbrev pub reboots : List Effect → ℕ
reboots [] = 0
reboots (reboot ∷ es) = suc (reboots es)
reboots (e ∷ es) = reboots es

-- How often the handler of the parent has reset the peer, and how often a servlet has.
pub record Tally : Type 0 where
  pub by_handler : ℕ
  pub by_servlet : ℕ

abbrev pub counted : Tally → Done → Tally
counted n d = record {
  by_handler = n.by_handler + reboots d.by_parent;
  by_servlet = n.by_servlet + reboots d.by_child;
}

abbrev pub next :
    Tally
    → Option (World × Done)
    → (World → Tally → Option (World × Tally))
    → Option (World × Tally)
next n none later = none
next n (some (w, d)) later = later w (counted n d)

-- A run over some events, with the tally; `none` stands for undefined behaviour.
unfoldable pub run : World → Tally → List Event → Option (World × Tally)
run w n [] = some (w, n)
run w n (e ∷ es) = next n (step w e) (λ w' n'. run w' n' es)
