-- ===== src/StrCli/Relay.antt =====
-- str_cli over any answers: its two streams and its shutdown.
use network_pragramming.Prelude.{
  ℕ, ◌<◌, ◌≡◌, refl, true, false, Option, none, some, List, [], ◌∷◌, ◌++◌, Bytes, arith, ◌==◌,
  append-nil, ◌∙◌, ◌⊎◌, inl, inr, Bool-cases,
}
use network_pragramming.Sys.{Call, Prog, after, trace}
use network_pragramming.Sys.Rules.{Ensures, Ensures-after, Ensures-bind, Ensures-trace}
use network_pragramming.Sys.Trace.{input_of, output_of, shutdowns}
use network_pragramming.StrCli.{
  State, Sets, Round, stdin, stdout, read_stdin, read_sock, write_stdout, write_sock, write_both,
  prepare, select_sets, round, rounds, start, str_cli,
}
use network_pragramming.StrCli.Invariant.{Inv, Inv-quiet, Safe, Inv-Safe, Carries}
use network_pragramming.StrCli.Invariant.Reads.{stdin_phase, sock_phase}
use network_pragramming.StrCli.Invariant.Writes.{stdout_phase, sock_write_phase}

-- What holds between two rounds.
abbrev pub Between : ℕ → List Call → Option State → Type 0
Between sock ds none = Safe sock ds
Between sock ds (some s) = Inv sock ds s

module _ (sock : ℕ) (apart : 1 < sock) where
  write_both_lem :
      (ds : List Call) (r : Round) (next : Option (State × Sets))
      → Carries sock ds next
      → Ensures ds (Between sock) (Safe sock) (write_both sock r next)
  unfolding write_both
  write_both_lem ds r none c = rw append-nil c
  write_both_lem ds r (some (s, q)) c =
      Ensures-bind (Inv sock) (Between sock) (Safe sock) ds (write_stdout s q r.stdout_write) _
        (stdout_phase sock apart ds s c q r.stdout_write)
        λ es s' v.
          Ensures-bind (Inv sock) (Between sock) (Safe sock) es (write_sock sock s' q r.sock_write)
            _ (sock_write_phase sock apart es s' v q r.sock_write) λ fs s'' w. rw append-nil w

  -- stdin is watched only until its end.
  watched :
      (s : State) (r : Round)
      → (select_sets (prepare s) r.ready).r_stdin ≡ true
      → s.stdineof ≡ false
  unfolding select_sets prepare
  watched s r h = ground arith

  pub round_lem :
      (cs : List Call) (s : State) (r : Round)
      → Inv sock cs s
      → Ensures cs (Between sock) (Safe sock) (round sock s r)
  unfolding round
  round_lem cs s r v =
      let asked = cs ++ (Call.select ∷ []) in
      let q = select_sets (prepare s) r.ready in
      Ensures-after (Between sock) (Safe sock) cs (Call.select ∷ []) _ (
        Ensures-bind (λ ds t. Inv sock ds t.0) (Between sock) (Safe sock) asked
          (read_stdin sock s q r.stdin_read) _
          (stdin_phase sock apart asked s (Inv-quiet sock cs Call.select v refl refl refl refl refl)
            q r.stdin_read (watched s r))
          λ ds (s', q') w.
            Ensures-bind (Carries sock) (Between sock) (Safe sock) ds
              (read_sock sock s' q' r.sock_read) _ (sock_phase sock apart ds s' w q' r.sock_read)
              λ es next c. write_both_lem es r next c)

  rounds_lem :
      (cs : List Call) (next : Option State) (rs : List Round)
      → Between sock cs next
      → Ensures cs (λ ds _. Safe sock ds) (Safe sock) (rounds sock next rs)
  unfolding rounds
  rounds_lem cs none rs b = rw append-nil b
  rounds_lem cs (some s) [] b =
      Inv-Safe sock _ (Inv-quiet sock cs Call.select b refl refl refl refl refl)
  rounds_lem cs (some s) (r ∷ rs) b =
      Ensures-bind (Between sock) (λ ds _. Safe sock ds) (Safe sock) cs (round sock s r) _
        (round_lem cs s r b) λ ds next c. rounds_lem ds next rs c

  quietly :
      (cs : List Call) (c : Call) (p : Prog (Unit {0}))
      → Ensures (cs ++ (c ∷ [])) (λ ds _. Safe sock ds) (Safe sock) p
      → Ensures cs (λ ds _. Safe sock ds) (Safe sock) (after (c ∷ []) p)
  quietly cs c p = Ensures-after (λ ds _. Safe sock ds) (Safe sock) cs (c ∷ []) p

  str_cli-Safe : (rs : List Round) → Safe sock (trace (str_cli sock rs))
  unfolding str_cli
  str_cli-Safe rs = Ensures-trace (Safe sock) (str_cli sock rs) (
      quietly [] (Call.set_nonblock sock) _ (
        quietly (Call.set_nonblock sock ∷ []) (Call.set_nonblock stdin) _ (
          quietly (Call.set_nonblock sock ∷ Call.set_nonblock stdin ∷ []) (Call.set_nonblock stdout)
            (rounds sock (some start) rs) (rounds_lem setup (some start) rs fresh))))
    where
      setup : List Call
      setup = Call.set_nonblock sock ∷ Call.set_nonblock stdin ∷ Call.set_nonblock stdout ∷ []

      fresh : Inv sock setup start
      fresh = record {
        to = record { relayed = refl; ordered = omega arith; bounded = omega arith };
        fr = record { relayed = refl; ordered = omega arith; bounded = omega arith };
        once = refl;
      }

-- On a socket other than stdin and stdout, whatever select, read and write answer, what str_cli
-- has written to the socket is the beginning of what it has read from stdin, and what it has
-- written to stdout the beginning of what it has read from the socket: no byte is lost, repeated
-- or moved.
pub str_cli_relays :
    (sock : ℕ) (rs : List Round)
    → 1 < sock
    → let cs = trace (str_cli sock rs) in
      ((unsent : Bytes) × (input_of stdin cs ≡ output_of sock cs ++ unsent))
      × ((unshown : Bytes) × (input_of sock cs ≡ output_of stdout cs ++ unshown))
str_cli_relays sock rs apart =
    let safe = str_cli-Safe sock apart rs in ((safe.unsent, safe.sent), (safe.unshown, safe.shown))

shut_cases :
    (sock : ℕ) (cs : List Call)
    → Safe sock cs
    → (shutdowns cs ≡ 0) ⊎ ((shutdowns cs ≡ 1) × (input_of stdin cs ≡ output_of sock cs))
shut_cases sock cs safe = elim (Bool-cases (shutdowns cs == 0)) [
  | inl z ↦ inl (ground arith)
  | inr z ↦
      let one : shutdowns cs ≡ 1 = ground (arith, safe.once) in
      inr (one, safe.sent ∙ (rw (safe.last one) (append-nil (output_of sock cs))))
]

-- On a socket other than stdin and stdout, str_cli never shuts the writing half down, or does so
-- once, and then all that it has read from stdin is written to the socket.
pub str_cli_shutdown :
    (sock : ℕ) (rs : List Round)
    → 1 < sock
    → let cs = trace (str_cli sock rs) in
      (shutdowns cs ≡ 0) ⊎ ((shutdowns cs ≡ 1) × (input_of stdin cs ≡ output_of sock cs))
str_cli_shutdown sock rs apart =
    shut_cases sock (trace (str_cli sock rs)) (str_cli-Safe sock apart rs)
