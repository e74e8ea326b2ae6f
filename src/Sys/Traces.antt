-- ===== src/Sys/Traces.antt =====
-- Rules for what holds of the whole trace of a program, however it ends.
use network_pragramming.Prelude.{ℕ, List, [], ◌∷◌, ◌++◌}
use network_pragramming.Sys.{
  Answer, failed, gave, Call, Prog, returns, exits, waits, after, call_or_exit, trace, ◌>>=◌,
}
use network_pragramming.Sys.Rules.{trace-after}

-- `Good` holds of two traces behind each other if it holds of both.
module _ (Good : List Call → Type 0)
    (append : (cs ds : List Call) → Good cs → Good ds → Good (cs ++ ds)) where
  pub after-Good :
      {A : Type 0} (cs : List Call) (p : Prog A)
      → Good cs
      → Good (trace p)
      → Good (trace (after cs p))
  after-Good cs p h k = rw (trace-after cs p) (append cs (trace p) h k)

  pub bind-Good :
      {A B : Type 0} (m : Prog A) (f : A → Prog B)
      → Good (trace m)
      → ((a : A) → Good (trace (f a)))
      → Good (trace (m >>= f))
  bind-Good (returns cs a) f h k = after-Good cs (f a) h (k a)
  bind-Good (exits cs n) f h k = h
  bind-Good (waits cs) f h k = h

  pub call_or_exit-Good :
      {A : Type 0} (c : Call) (n : ℕ) (a : Answer A)
      → Good (c ∷ [])
      → Good (trace (call_or_exit c n a))
  call_or_exit-Good c n (failed e) h = h
  call_or_exit-Good c n (gave a) h = h
