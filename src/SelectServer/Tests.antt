-- ===== src/SelectServer/Tests.antt =====
-- The three-client server in a session in which the client of the first slot has left.
use network_pragramming.Prelude.{
  ◌≡◌, refl, true, false, none, some, [], ◌∷◌, codes, arith, ◌==◌, if◌then◌else◌,
}
use network_pragramming.Sys.{Errno, failed, gave, Call, trace, FdSet, fd_set}
use network_pragramming.Sys.Trace.{reads}
use network_pragramming.Slots.{store}
use network_pragramming.Prelude.{List, Bytes}
use network_pragramming.Sys.{Answer}
use network_pragramming.SelectServer.{Setup, select_server}
use network_pragramming.SelectServer.Echoes.{Polite, select_server-Echoes}
use network_pragramming.SelectServer.{Server, Round, ready, round}
use network_pragramming.SelectServer.Invariant.{IsValid, round-IsValid}
use network_pragramming.SelectServer.Starved.{round-starves}

-- The clients 5 and 6 are left after 4, of the first slot, has gone.
abbrev two_left : Server
two_left = record {
  master_sock = 3;
  cli_socks = none ∷ some 5 ∷ some 6 ∷ [];
  cur_conn_cnt = 2;
  max_sd = 6;
  active_fds = fd_set 3 (fd_set 5 (fd_set 6 (λ d. false)));
}

two_left-IsValid : IsValid two_left
two_left-IsValid = record {
  sized = refl;
  counted = refl;
  distinct = λ fd. ground arith;
  apart = refl;
  listens = refl;
  watched = λ fd e. ground arith;
  known = λ fd e. ground arith;
  below = λ fd e. ground arith;
}

abbrev all : FdSet
all = λ d. true

-- Everything is ready but the listening socket.
abbrev clients_ready : FdSet
clients_ready = λ d. if d == 3 then false else true

abbrev talk : Round
talk = record {
  selected = gave (ready clients_ready);
  accepted = failed Errno.eagain;
  received = λ d. gave (codes "x");
}

round-starves_example : reads 6 (trace (round two_left talk)) ≡ 0
round-starves_example = round-starves two_left talk 2 6 two_left-IsValid refl (omega arith) refl

-- The client before it is read from and answered.
talk_calls :
    trace (round two_left talk)
    ≡ Call.select
      ∷ Call.read 5 255
      ∷ Call.received 5 (codes "x")
      ∷ Call.write 5 (codes "ECHO BACK : x")
      ∷ []
unfolding round store
talk_calls = refl

abbrev knock : Round
knock = record {
  selected = gave (ready (λ d. d == 3));
  accepted = gave 4;
  received = λ d. failed Errno.eagain;
}

abbrev three_clients : Server
three_clients = record two_left {
  cli_socks = some 4 ∷ some 5 ∷ some 6 ∷ [];
  cur_conn_cnt = 3;
  active_fds = fd_set 4 two_left.active_fds;
}

round-IsValid_example : IsValid three_clients
unfolding round store
round-IsValid_example =
    round-IsValid two_left knock
      (Call.select ∷ Call.accept 3 ∷ Call.write 4 (codes "Accept, connection established!") ∷ [])
      three_clients two_left-IsValid refl refl

-- The server accepts a client, reads from it twice, and drops it at the end of the file.
abbrev calls_succeed : Setup
calls_succeed = record { socket = gave 3; reuse = gave tt; bound = gave tt; listening = gave tt }

abbrev hears : FdSet → Answer Bytes → Round
hears fds bytes = record { selected = gave (ready fds); accepted = gave 4; received = λ d. bytes }

abbrev short_run : List Round
short_run =
    hears (λ d. d == 3) (gave [])
    ∷ hears (λ d. d == 4) (gave (codes "x"))
    ∷ hears (λ d. d == 4) (gave [])
    ∷ []

select_server-Echoes_example : Polite (select_server calls_succeed short_run)
select_server-Echoes_example = select_server-Echoes calls_succeed short_run
