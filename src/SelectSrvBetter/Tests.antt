-- ===== src/SelectSrvBetter/Tests.antt =====
-- The ten-client server in two rounds: one with two clients ready, one with a new connection.
use network_pragramming.Prelude.{
  ◌+◌, ◌≤◌, ◌++◌, ◌≡◌, refl, true, false, none, some, List, [], ◌∷◌, codes, arith, ◌==◌,
  if◌then◌else◌,
}
use network_pragramming.Sys.{Errno, failed, gave, Call, returns, fd_set, fd_clr}
use network_pragramming.Slots.{store, first_free}
use network_pragramming.SelectSrvBetter.{Server, Round, round, max_connections}
use network_pragramming.SelectSrvBetter.Invariant.{IsValid, round-keeps_table}
use mathlib.Mathlib.Data.Multiset.Defs.{of_list}
use network_pragramming.SelectSrvBetter.Reference.View.{view}
use network_pragramming.SelectSrvBetter.Reference.WholeRun.{
  Visit, round_of, Keeps, visit, stop, Follows-spec,
}
use network_pragramming.SelectSrvBetter.Conserved.{here, next, Runs-used}
use network_pragramming.Slots.{used}
use network_pragramming.Sys.Trace.{closes}

-- The clients 4 and 6, in the first and the third slot.
abbrev two_clients : Server
two_clients = record {
  master_sock = 3;
  cli_socks = some 4 ∷ none ∷ some 6 ∷ none ∷ none ∷ none ∷ none ∷ none ∷ none ∷ none ∷ [];
  limit = 3;
  max_sd = 6;
  active_fds = fd_set 3 (fd_set 4 (fd_set 6 (λ d. false)));
}

two_clients-IsValid : IsValid two_clients
two_clients-IsValid = record {
  sized = refl;
  distinct = λ fd. ground arith;
  apart = refl;
  listens = refl;
  watched = λ fd e. ground arith;
  known = λ fd e. ground arith;
  below = λ fd e. ground arith;
  above = refl;
}

abbrev talk : Round
talk = record {
  selected = gave (record { nready = 2; fds = λ d. if d == 3 then false else true });
  accepted = failed Errno.eagain;
  received = λ d. if d == 4 then gave [] else gave (codes "x");
}

-- The client 4 leaves in the round in which 7 arrives.
abbrev change : Visit
change = record {
  nready = 2;
  fds = λ d. if d == 3 then true else d == 4;
  knocks = true;
  new = 7;
  received = λ d. gave [];
}

abbrev changed : Server
changed = record two_clients {
  cli_socks = none ∷ some 7 ∷ some 6 ∷ none ∷ none ∷ none ∷ none ∷ none ∷ none ∷ none ∷ [];
  max_sd = 7;
  active_fds = fd_clr 4 (fd_set 7 two_clients.active_fds);
}

first_change :
    round two_clients (round_of change)
    ≡ returns (Call.select ∷ Call.accept 3 ∷ Call.read 4 255 ∷ Call.close 4 ∷ []) changed
unfolding round store first_free
first_change = refl

change-Keeps : Keeps two_clients change
unfolding first_free
change-Keeps = record {
  at_master = refl;
  fresh = refl;
  free = λ e. omega arith;
  counts = omega arith;
}

Follows-spec_example : view changed ≡ of_list (7 ∷ 6 ∷ [])
Follows-spec_example = Follows-spec two_clients changed (change ∷ []) two_clients-IsValid (
    visit two_clients changed changed change []
      (Call.select ∷ Call.accept 3 ∷ Call.read 4 255 ∷ Call.close 4 ∷ []) change-Keeps first_change
      (stop changed))

abbrev knock : Round
knock = record {
  selected = gave (record { nready = 1; fds = λ d. d == 3 });
  accepted = gave 7;
  received = λ d. failed Errno.eagain;
}

abbrev three_clients : Server
three_clients = record two_clients {
  cli_socks = some 4 ∷ some 7 ∷ some 6 ∷ none ∷ none ∷ none ∷ none ∷ none ∷ none ∷ none ∷ [];
  max_sd = 7;
  active_fds = fd_set 7 two_clients.active_fds;
}

round-keeps_table_example : IsValid three_clients
unfolding round store first_free
round-keeps_table_example =
    round-keeps_table two_clients knock (Call.select ∷ Call.accept 3 ∷ []) three_clients
      two_clients-IsValid refl refl

-- The client 4 leaves when all are ready but the listening socket; then 7 arrives.
abbrev six_left : Server
six_left = record two_clients {
  cli_socks = none ∷ none ∷ some 6 ∷ none ∷ none ∷ none ∷ none ∷ none ∷ none ∷ none ∷ [];
  active_fds = fd_clr 4 two_clients.active_fds;
}

abbrev six_and_seven : Server
six_and_seven = record six_left {
  cli_socks = some 7 ∷ none ∷ some 6 ∷ none ∷ none ∷ none ∷ none ∷ none ∷ none ∷ none ∷ [];
  max_sd = 7;
  active_fds = fd_set 7 six_left.active_fds;
}

abbrev first_calls : List Call
first_calls =
    Call.select
    ∷ Call.read 4 255
    ∷ Call.close 4
    ∷ Call.read 6 255
    ∷ Call.received 6 (codes "x")
    ∷ []

abbrev second_calls : List Call
second_calls = Call.select ∷ Call.accept 3 ∷ []

first_round : round two_clients talk ≡ returns first_calls six_left
unfolding round
first_round = refl

second_round : round six_left knock ≡ returns second_calls six_and_seven
unfolding round store first_free
second_round = refl

Runs-used_example :
    (used six_and_seven.cli_socks + closes (first_calls ++ second_calls ++ []) ≡ 2 + 1)
    × (used six_and_seven.cli_socks ≤ max_connections)
Runs-used_example =
    Runs-used two_clients six_and_seven (first_calls ++ second_calls ++ []) 1 two_clients-IsValid (
      next two_clients talk first_calls (second_calls ++ []) 1 six_left six_and_seven tt first_round
        (next six_left knock second_calls [] 0 six_and_seven six_and_seven refl second_round
          (here six_and_seven)))
