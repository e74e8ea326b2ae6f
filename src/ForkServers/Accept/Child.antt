-- ===== src/ForkServers/Accept/Child.antt =====
-- What the child of a forking server does after its service.
use network_pragramming.Prelude.{ℕ, ◌≡◌, refl, ap, List, [], ◌∷◌, ◌++◌}
use network_pragramming.Sys.{gave, Call, Prog, returns, exits, waits, after, exit, ◌>>◌}
use network_pragramming.ForkServers.Accept.{
  Round, child_process, accepted_case, forked_case, round, rounds,
}

-- A program that does not come to its end.
abbrev Ends : {A : Type 0} → Prog A → Type 0
Ends (returns cs a) = ⊥
Ends (exits cs n) = Unit
Ends (waits cs) = Unit

Ends-after : {A : Type 0} (cs : List Call) (p : Prog A) → Ends p → Ends (after cs p)
Ends-after cs (returns ds a) h = h
Ends-after cs (exits ds n) h = tt
Ends-after cs (waits ds) h = tt

Ends-exit : (m : Prog (Unit {0})) (n : ℕ) → Ends (m >> exit {A = Unit} n)
Ends-exit (returns cs u) n = tt
Ends-exit (exits cs k) n = tt
Ends-exit (waits cs) n = tt

-- What follows such a program is not run.
Ends-skip : (m p q : Prog (Unit {0})) → Ends m → (m >> p) ≡ (m >> q)
Ends-skip (returns cs u) p q h = absurd h
Ends-skip (exits cs n) p q h = refl
Ends-skip (waits cs) p q h = refl

module _ {W : Type 0} (service : ℕ → W → Prog (Unit {0})) (fork_failed : ℕ → Prog (Unit {0})) where
  round-Ends :
      (listenfd fd : ℕ) (r : Round W)
      → r.accepted ≡ gave fd
      → r.forked ≡ gave 0
      → Ends (round service fork_failed listenfd r)
  unfolding round accepted_case forked_case child_process
  round-Ends listenfd fd r a f =
      rw (a, f)
        (Ends-after (Call.accept listenfd ∷ []) _ (
          Ends-after (Call.fork ∷ []) _
            (Ends-after (Call.close listenfd ∷ []) _ (Ends-exit (service fd r.work) 0))))

  -- A child never goes back to accept: what its run does is the same whatever rounds come later.
  pub rounds-child :
      (listenfd fd : ℕ) (rs : List (Round W)) (r : Round W) (later : List (Round W))
      → r.accepted ≡ gave fd
      → r.forked ≡ gave 0
      → rounds service fork_failed listenfd (rs ++ (r ∷ later))
        ≡ rounds service fork_failed listenfd (rs ++ (r ∷ []))
  unfolding rounds
  rounds-child listenfd fd [] r later a f =
      Ends-skip (round service fork_failed listenfd r) _ _ (round-Ends listenfd fd r a f)
  rounds-child listenfd fd (q ∷ rs) r later a f =
      ap (λ p. round service fork_failed listenfd q >> p) (rounds-child listenfd fd rs r later a f)
