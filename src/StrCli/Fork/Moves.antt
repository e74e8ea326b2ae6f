-- ===== src/StrCli/Fork/Moves.antt =====
-- The two processes of fork_str_cli side by side: their calls in some order, and the signal.
use network_pragramming.Prelude.{ap, ◌≡◌, refl, List, [], ◌∷◌, arith}
use network_pragramming.Sys.{Call}

-- A call of one of them, or the end that SIGTERM makes of the parent.
pub data Move : Type 0 where
  by_parent by_child : Call → Move
  parent_ends : Move

-- The parent, with the calls before it: SIGTERM is on its way to it behind a kill of the child, and
-- ends it at some time.
pub data Parent : Type 0 where
  running signalled : List Call → Parent
  ended : Parent

-- What a call of the child makes of the parent.
abbrev pub signal : Call → Parent → Parent
signal Call.kill_parent (running ps) = signalled ps
signal Call.kill_parent (signalled ps) = signalled ps
signal Call.kill_parent ended = ended
signal c p = p

-- `Run p cs ms`: where the parent is p and the child has the calls cs before it, the moves ms may
-- happen next, one after the other.
pub data Run : Parent → List Call → List Move → Type 0 where
  stop : {p : Parent} {cs : List Call} → Run p cs []
  parent_moves :
      {ps cs : List Call} {ms : List Move} (c : Call)
      → Run (running ps) cs ms
      → Run (running (c ∷ ps)) cs (by_parent c ∷ ms)
  late_moves :
      {ps cs : List Call} {ms : List Move} (c : Call)
      → Run (signalled ps) cs ms
      → Run (signalled (c ∷ ps)) cs (by_parent c ∷ ms)
  terminates :
      {ps cs : List Call} {ms : List Move}
      → Run ended cs ms
      → Run (signalled ps) cs (parent_ends ∷ ms)
  child_moves :
      {p : Parent} {cs : List Call} {ms : List Move} (c : Call)
      → Run (signal c p) cs ms
      → Run p (c ∷ cs) (by_child c ∷ ms)

-- The calls of the parent in some moves.
abbrev pub parent_calls : List Move → List Call
parent_calls [] = []
parent_calls (by_parent c ∷ ms) = c ∷ parent_calls ms
parent_calls (m ∷ ms) = parent_calls ms

-- Behind the end of the parent, there is no call of it.
abbrev pub QuietBehind : List Move → Type 0
QuietBehind [] = Unit
QuietBehind (parent_ends ∷ ms) = parent_calls ms ≡ []
QuietBehind (m ∷ ms) = QuietBehind ms

-- The parent does not end, and the child prints no text, before the child has sent the signal.
abbrev pub SignalFirst : List Move → Type 0
SignalFirst [] = Unit
SignalFirst (by_child Call.kill_parent ∷ ms) = Unit
SignalFirst (by_child (Call.put text) ∷ ms) = ⊥
SignalFirst (parent_ends ∷ ms) = ⊥
SignalFirst (m ∷ ms) = SignalFirst ms

-- No text is printed before the signal.
abbrev pub KillsFirst : List Call → Type 0
KillsFirst [] = Unit
KillsFirst (Call.kill_parent ∷ cs) = Unit
KillsFirst (Call.put text ∷ cs) = ⊥
KillsFirst (c ∷ cs) = KillsFirst cs

-- The calls that the parent has before it.
abbrev pub left : Parent → List Call
left (running ps) = ps
left (signalled ps) = ps
left ended = []

pub left-signal : (c : Call) (p : Parent) → left (signal c p) ≡ left p
left-signal Call.kill_parent (running ps) = refl
left-signal Call.kill_parent (signalled ps) = refl
left-signal Call.kill_parent ended = refl
left-signal _ p = refl

pub Run-ended :
    {p : Parent} {cs : List Call} {ms : List Move} → p ≡ ended → Run p cs ms → parent_calls ms ≡ []
Run-ended e stop = refl
Run-ended e (parent_moves c r) = ground arith
Run-ended e (late_moves c r) = ground arith
Run-ended e (terminates r) = ground arith
Run-ended e (child_moves Call.kill_parent r) = Run-ended (ap (signal Call.kill_parent) e) r
Run-ended e (child_moves _ r) = Run-ended e r
