-- ===== src/StrCli/Invariant.antt =====
-- What is kept between the calls of str_cli: both directions, the bounds of the buffers, and the
-- count of shutdowns.
pub mod Reads
pub mod Writes
use network_pragramming.Prelude.{
  ℕ, ◌+◌, ◌≤◌, ◌<◌, ◌≡◌, refl, true, false, ◌&&◌, Option, none, some, List, [], ◌∷◌, ◌++◌, Bytes,
  length, take, min, arith, ltb, if◌then◌else◌, append-nil, length-take, drop_of_length-le,
  Bool-cases, inl, inr, length-drop,
}
use network_pragramming.Sys.{
  is_eagain, input_cases, read_some, write_some, ◌>>=◌, after, Answer, failed, gave, Call,
}
use network_pragramming.Sys.Rules.{Ensures}
use network_pragramming.Sys.Trace.{input_of, output_of, shutdowns, shutdowns-append}
use network_pragramming.StrCli.{
  pending, room, backlog, is_drained, State, Sets, stdin, stdout, stdin_input, read_stdin,
  sock_input, read_sock, stdout_written, write_stdout, sock_written, write_sock,
}
use network_pragramming.StrCli.Flow.{Flow, Flow-quiet, Flow-received, Flow-accepted}

-- How often the socket has been shut down.
abbrev pub closing : State → ℕ
closing s = if s.stdineof && is_drained s.to then 1 else 0

pub record Inv (sock : ℕ) (cs : List Call) (s : State) : Type 0 where
  pub to : Flow stdin sock cs s.to
  pub fr : Flow sock stdout cs s.fr
  pub once : shutdowns cs ≡ closing s

-- What is known of the calls when the program stops at any point.
pub record Safe (sock : ℕ) (cs : List Call) : Type 0 where
  pub unsent : Bytes
  pub sent : input_of stdin cs ≡ output_of sock cs ++ unsent
  pub unshown : Bytes
  pub shown : input_of sock cs ≡ output_of stdout cs ++ unshown
  pub once : shutdowns cs ≤ 1
  pub last : shutdowns cs ≡ 1 → unsent ≡ []

pub Inv-Safe : (sock : ℕ) (cs : List Call) {s : State} → Inv sock cs s → Safe sock cs
Inv-Safe sock cs {s} v = record {
  unsent = pending s.to;
  sent = v.to.relayed;
  unshown = pending s.fr;
  shown = v.fr.relayed;
  once = ground (arith, v.once);
  last = λ e. drop_of_length-le s.to.out s.to.stored (ground (arith, v.once));
}

-- Calls that move no bytes and do not shut the socket down.
pub Inv-quiet :
    (sock : ℕ) (cs : List Call) (c : Call) {s : State}
    → Inv sock cs s
    → input_of stdin (c ∷ []) ≡ []
    → input_of sock (c ∷ []) ≡ []
    → output_of sock (c ∷ []) ≡ []
    → output_of stdout (c ∷ []) ≡ []
    → shutdowns (c ∷ []) ≡ 0
    → Inv sock (cs ++ (c ∷ [])) s
Inv-quiet sock cs c v i i' o o' h = record {
  to = Flow-quiet cs (c ∷ []) v.to i o;
  fr = Flow-quiet cs (c ∷ []) v.fr i' o';
  once = ground (arith, shutdowns-append cs (c ∷ []), v.once);
}

-- A step after which str_cli may have returned.
abbrev pub Carries : ℕ → List Call → Option (State × Sets) → Type 0
Carries sock ds none = Safe sock ds
Carries sock ds (some r) = Inv sock ds r.0
