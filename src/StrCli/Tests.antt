-- ===== src/StrCli/Tests.antt =====
-- str_cli on a short session: a line from stdin, its echo, the end of stdin and of the socket.
use network_pragramming.Prelude.{
  ◌≡◌, ◌⊎◌, refl, true, Option, none, some, List, [], ◌∷◌, ◌++◌, Bytes, codes, arith,
}
use network_pragramming.Sys.{Errno, Answer, failed, gave, trace, Call, waits}
use network_pragramming.Sys.Trace.{input_of, output_of, shutdowns}
use network_pragramming.StrCli.{Sets, Round, stdin, stdout, str_cli}
use network_pragramming.StrCli.{State, start, round, rounds}
use network_pragramming.StrCli.Time.{gf_time}
use network_pragramming.Decimal.{decimal}
use network_pragramming.StrCli.Flush.{Takes}
use network_pragramming.StrCli.Flush.Ends.{Reach, begin, next, str_cli-flushes}
use network_pragramming.Sys.{returns}
use network_pragramming.Prelude.{ℕ}
use network_pragramming.StrCli.Relay.{str_cli_relays, str_cli_shutdown}
use network_pragramming.StrCli.Fork.{Line, send_lines, client_main}
use network_pragramming.StrCli.Fork.Moves.{Move, by_parent, by_child, parent_ends}

abbrev all_ready : Sets
all_ready = record { r_stdin = true; r_sock = true; w_sock = true; w_stdout = true }

abbrev nothing {ℓ} : {A : Type ℓ} → Answer A
nothing = failed Errno.eagain

abbrev session : List Round
session =
    record {
      ready = gave all_ready;
      stdin_read = gave (codes "hi");
      sock_read = nothing;
      stdout_write = nothing;
      sock_write = gave 1;
    }
    ∷ record {
      ready = gave all_ready;
      stdin_read = gave [];
      sock_read = gave (codes "HI");
      stdout_write = gave 2;
      sock_write = gave 1;
    }
    ∷ record {
      ready = gave all_ready;
      stdin_read = nothing;
      sock_read = gave [];
      stdout_write = nothing;
      sock_write = nothing;
    }
    ∷ []

session_output :
    (output_of 3 (trace (str_cli 3 session)) ≡ codes "hi")
    × (output_of stdout (trace (str_cli 3 session)) ≡ codes "HI")
    × (shutdowns (trace (str_cli 3 session)) ≡ 1)
unfolding str_cli
session_output = (refl, refl, refl)

str_cli_relays_example :
    let cs = trace (str_cli 3 session) in
    ((unsent : Bytes) × (input_of stdin cs ≡ output_of 3 cs ++ unsent))
    × ((unshown : Bytes) × (input_of 3 cs ≡ output_of stdout cs ++ unshown))
str_cli_relays_example = str_cli_relays 3 session (omega arith)

str_cli_shutdown_example :
    let cs = trace (str_cli 3 session) in
    (shutdowns cs ≡ 0) ⊎ ((shutdowns cs ≡ 1) × (input_of stdin cs ≡ output_of 3 cs))
str_cli_shutdown_example = str_cli_shutdown 3 session (omega arith)

-- Two lines are typed; the server answers the first, and the signal ends the parent behind the write
-- of the second.
abbrev typed : List (Option Line)
typed =
    some (record { sendline = codes "hi"; written = gave 2 })
    ∷ some (record { sendline = codes "ho"; written = gave 2 })
    ∷ none
    ∷ []

abbrev answer : List (Answer Bytes)
answer = gave (codes "HI") ∷ []

abbrev moves : List Move
moves =
    by_parent (Call.write 3 (codes "hi"))
    ∷ by_parent (Call.accepted 3 (codes "hi"))
    ∷ by_child (Call.read 3 1024)
    ∷ by_child (Call.received 3 (codes "HI"))
    ∷ by_child Call.kill_parent
    ∷ by_parent (Call.write 3 (codes "ho"))
    ∷ parent_ends
    ∷ by_child (Call.put (codes "HI"))
    ∷ []

two_arguments :
    client_main 2
      (gave 3)
      (gave tt)
      (record { forked = gave 70; recvline = []; reads = []; typed = typed })
    ≡ waits (
        Call.socket
        ∷ Call.connect 3
        ∷ Call.fork
        ∷ Call.write 3 (codes "hi")
        ∷ Call.accepted 3 (codes "hi")
        ∷ Call.write 3 (codes "ho")
        ∷ Call.accepted 3 (codes "ho")
        ∷ Call.shutdown_wr 3
        ∷ Call.pause
        ∷ [])
unfolding client_main send_lines
two_arguments = refl

-- A round with one answer for stdin and one for the writes to the socket.
abbrev stalled : Answer Bytes → Answer ℕ → Round
stalled typed taken = record {
  ready = gave all_ready;
  stdin_read = typed;
  sock_read = nothing;
  stdout_write = nothing;
  sock_write = taken;
}

abbrev typed_hi : State
typed_hi = record start { to = record { stored = codes "hi"; out = 0 } }

abbrev ended_hi : State
ended_hi = record typed_hi { stdineof = true }

abbrev line_calls : List Call
line_calls =
    Call.select
    ∷ Call.read 0 1024
    ∷ Call.received 0 (codes "hi")
    ∷ Call.read 3 1024
    ∷ Call.write 3 (codes "hi")
    ∷ []

abbrev end_calls : List Call
end_calls =
    Call.select
    ∷ Call.read 0 1022
    ∷ Call.received 0 []
    ∷ Call.read 3 1024
    ∷ Call.write 3 (codes "hi")
    ∷ []

line_round :
    round 3 start (stalled (gave (codes "hi")) nothing) ≡ returns line_calls (some typed_hi)
unfolding round
line_round = refl

end_round : round 3 typed_hi (stalled (gave []) nothing) ≡ returns end_calls (some ended_hi)
unfolding round
end_round = refl

abbrev so_far : List Call
so_far =
    (Call.set_nonblock 3 ∷ Call.set_nonblock 0 ∷ Call.set_nonblock 1 ∷ [])
    ++ line_calls
    ++ end_calls

so_far-Reach : Reach 3 so_far ended_hi
so_far-Reach =
    next ((Call.set_nonblock 3 ∷ Call.set_nonblock 0 ∷ Call.set_nonblock 1 ∷ []) ++ line_calls)
      end_calls typed_hi ended_hi (stalled (gave []) nothing)
      (next (Call.set_nonblock 3 ∷ Call.set_nonblock 0 ∷ Call.set_nonblock 1 ∷ []) line_calls start
        typed_hi (stalled (gave (codes "hi")) nothing) begin line_round)
      end_round

one_byte-Takes : Takes (stalled nothing (gave 1))
one_byte-Takes = record {
  sets = all_ready;
  selected = refl;
  writable = refl;
  more = 0;
  taken = refl;
  goes_on = refl;
  shows = refl;
}

abbrev two_bytes : List Round
two_bytes = stalled nothing (gave 1) ∷ stalled nothing (gave 1) ∷ []

str_cli-flushes_example :
    (ds : List Call) × (rounds 3 (some ended_hi) two_bytes ≡ waits ds)
    × (shutdowns (so_far ++ ds) ≡ 1)
    × (input_of stdin (so_far ++ ds) ≡ output_of 3 (so_far ++ ds))
str_cli-flushes_example =
    str_cli-flushes 3 so_far ended_hi two_bytes (omega arith) so_far-Reach refl
      (one_byte-Takes, (one_byte-Takes, tt)) (omega arith)

-- A point in front of the microseconds.
time_text :
    gf_time (gave (record { text = codes "Thu Jan  1 12:54:05 1970\n"; tv_usec = 9738 }))
    ≡ returns [] (codes "12:54:05.009738")
unfolding gf_time decimal
time_text = refl
