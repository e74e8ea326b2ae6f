-- ===== src/Heartbeat/Startup.antt =====
-- How the heartbeat programs start: the listening socket of C/heartbeat_router.c and
-- C/heartbeat_srv.c, and connect_server of C/heartbeat_cli.c and C/heartbeat_android.c.
use network_pragramming.Prelude.{
  ℕ, false, Option, none, some, List, [], ◌∷◌, Bytes, ◌==◌, if◌then◌else◌,
}
use network_pragramming.Sys.{
  Answer, failed, gave, Call, Prog, returns, exit, exit_minus_one, call, call_or_exit, after, ◌>>=◌,
  ◌>>◌,
}
use network_pragramming.Heartbeat.Router
use network_pragramming.Heartbeat.Router.{World, Tally}
use network_pragramming.Heartbeat.Server
use network_pragramming.Heartbeat.Client
use network_pragramming.Heartbeat.Client.{connected, refused}

pub record Setup : Type 0 where
  pub socket : Answer ℕ
  pub reused : Answer (Unit {0})

-- The calls before the loop of both servers. When socket fails, setsockopt gets -1 and fails too.
-- The result of bind only makes a message, and that of listen is not looked at.
listening : ℕ → Setup → Prog ℕ
listening alarm_interval a = do
  fd ← call_or_exit Call.socket exit_minus_one a.socket
  reused ← call_or_exit (Call.set_reuseaddr fd) exit_minus_one a.reused
  call (Call.bind fd)
  call (Call.listen fd 15)
  call (Call.alarm alarm_interval)
  returns [] fd

abbrev undefined : ℕ
undefined = 134

-- Undefined behaviour ends the run of the router.
ran : Option (World × Tally) → Prog (World × Tally)
ran none = exit undefined
ran (some r) = returns [] r

-- main of C/heartbeat_router.c, over what happens to it; `file` is what an earlier run has left.
unfoldable pub heartbeat_router : Setup → Bytes → List Router.Event → Prog (World × Tally)
unfolding listening ran Router.run
heartbeat_router a file es = do
  fd ← listening Router.alarm_interval a
  ran (
      Router.run
        (record {
          file = file;
          parent = record { already_reset = false; child_pid = 0 };
          children = [];
        })
        (record { by_handler = 0; by_servlet = 0 }) es)

-- main of C/heartbeat_srv.c
unfoldable pub heartbeat_srv : ℕ → Setup → List Server.Event → Prog (Server.State × ℕ)
unfolding listening
heartbeat_srv count a es =
    if count == 2
    then (do
      fd ← listening Server.alarm_interval a
      returns [] (Server.run (record { expire_cnt = 0; already_reset = false }) 0 es))
    else exit 0

-- connect_server, whose result is one of the events of the loop. When socket fails, connect gets
-- -1 and fails too.
connect_case : ℕ → Answer (Unit {0}) → Prog Client.Event
connect_case fd (failed e) = returns (Call.connect fd ∷ Call.close fd ∷ []) refused
connect_case fd (gave ok) = returns (Call.connect fd ∷ []) connected

unfoldable pub connect_server : Answer ℕ → Answer (Unit {0}) → Prog Client.Event
unfolding connect_case
connect_server (failed e) a = returns (Call.socket ∷ []) refused
connect_server (gave fd) a = after (Call.socket ∷ Call.set_owner fd ∷ []) (connect_case fd a)
