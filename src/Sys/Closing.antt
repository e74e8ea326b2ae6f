-- ===== src/Sys/Closing.antt =====
-- Counting the descriptors that a program closes against those that it has got.
use network_pragramming.Prelude.{ℕ, ◌+◌, ◌≡◌, List, ◌++◌, arith}
use network_pragramming.Sys.{Call, Prog, returns, exits, waits, after, ◌>>◌}

-- A part of a loop that ends, or ends the program, with `k` of `n` connections left open, where
-- `count` counts the calls of a trace that close one.
abbrev pub Leaves : (List Call → ℕ) → ℕ → ℕ → Prog (Unit {0}) → Type 0
Leaves count k n (returns cs u) = n ≡ count cs + k
Leaves count k n (exits cs status) = Unit
Leaves count k n (waits cs) = ⊥

-- A run that has not ended the program.
abbrev pub Left : (List Call → ℕ) → ℕ → ℕ → Prog (Unit {0}) → Type 0
Left count k n (returns cs u) = Unit
Left count k n (exits cs status) = Unit
Left count k n (waits cs) = n ≡ count cs + k

module _ (count : List Call → ℕ)
    (count-append : (cs ds : List Call) → count (cs ++ ds) ≡ count cs + count ds) where
  pub Leaves-after :
      (k n : ℕ) (cs : List Call) (p : Prog (Unit {0}))
      → count cs ≡ 0
      → Leaves count k n p
      → Leaves count k n (after cs p)
  Leaves-after k n cs (returns ds u) e h = omega (arith, count-append cs ds)
  Leaves-after k n cs (exits ds status) e h = tt
  Leaves-after k n cs (waits ds) e h = h

  Left-after :
      (k k' n n' : ℕ) (cs : List Call) (p : Prog (Unit {0}))
      → n ≡ count cs + k
      → Left count k' n' p
      → Left count (k + k') (n + n') (after cs p)
  Left-after k k' n n' cs (returns ds u) e h = tt
  Left-after k k' n n' cs (exits ds status) e h = tt
  Left-after k k' n n' cs (waits ds) e h = omega (arith, count-append cs ds)

  pub Left-bind :
      (k k' n n' : ℕ) (m p : Prog (Unit {0}))
      → Leaves count k n m
      → Left count k' n' p
      → Left count (k + k') (n + n') (m >> p)
  Left-bind k k' n n' (returns cs u) p e h = Left-after k k' n n' cs p e h
  Left-bind k k' n n' (exits cs status) p e h = tt
  Left-bind k k' n n' (waits cs) p e h = absurd e
