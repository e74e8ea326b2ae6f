-- ===== src/ForkServers/Accept/Closes.antt =====
-- What the parent of a forking server does with the connections that it accepts.
use network_pragramming.Prelude.{
  ℕ, ◌+◌, ◌≡◌, ◌≢◌, refl, false, List, [], ◌∷◌, arith, ◌==◌, if◌then◌else◌, Bool-cases, inl, inr,
}
use network_pragramming.Sys.{is_eintr, Answer, failed, gave, Call, Prog, waits}
use network_pragramming.Sys.Trace.{closes_of, closes_of-append}
use network_pragramming.Sys.Closing.{Leaves, Leaves-after, Left, Left-bind}
use network_pragramming.ForkServers.Accept.{Round, accepted_case, forked_case, round, rounds}

-- Whether a round gets a connection on the descriptor `d`, as 0 or 1, and how many rounds do.
abbrev connection : ℕ → Answer ℕ → ℕ
connection d (failed e) = 0
connection d (gave fd) = if fd == d then 1 else 0

abbrev pub connections : {W : Type 0} → ℕ → List (Round W) → ℕ
connections d [] = 0
connections d (r ∷ rs) = connection d r.accepted + connections d rs

-- The process that fork leaves in these rounds is the parent.
abbrev IsParent : Answer ℕ → Type 0
IsParent (failed e) = Unit
IsParent (gave pid) = pid ≢ 0

abbrev pub AllParent : {W : Type 0} → List (Round W) → Type 0
AllParent [] = Unit
AllParent (r ∷ rs) = IsParent r.forked × AllParent rs

module _ {W : Type 0} (service : ℕ → W → Prog (Unit {0})) (fork_failed : ℕ → Prog (Unit {0}))
    (d : ℕ)
    (closed : (fd : ℕ) → Leaves (closes_of d) 0 (if fd == d then 1 else 0) (fork_failed fd)) where
  forked_case-Leaves :
      (listenfd fd : ℕ) (w : W) (a : Answer ℕ)
      → IsParent a
      → Leaves
          (closes_of d)
          0
          (if fd == d then 1 else 0)
          (forked_case service fork_failed listenfd fd w a)
  unfolding forked_case
  forked_case-Leaves listenfd fd w (failed e) h =
      Leaves-after (closes_of d) (closes_of-append d) 0 (if fd == d then 1 else 0) (Call.fork ∷ [])
        (fork_failed fd) refl (closed fd)
  forked_case-Leaves listenfd fd w (gave pid) h =
      let parent : (pid == 0) ≡ false = ground arith in rw parent (ground arith)

  accepted_case-Leaves :
      (listenfd : ℕ) (r : Round W) (a : Answer ℕ)
      → IsParent r.forked
      → Leaves (closes_of d) 0 (connection d a) (accepted_case service fork_failed listenfd r a)
  unfolding accepted_case
  accepted_case-Leaves listenfd r (failed e) h = elim (Bool-cases (is_eintr e)) [
    | inl i ↦ rw i refl
    | inr i ↦ rw i tt
  ]
  accepted_case-Leaves listenfd r (gave fd) h = forked_case-Leaves listenfd fd r.work r.forked h

  rounds-Left :
      (listenfd : ℕ) (rs : List (Round W))
      → AllParent rs
      → Left (closes_of d) 0 (connections d rs) (rounds service fork_failed listenfd rs)
  unfolding rounds round
  rounds-Left listenfd [] h = refl
  rounds-Left listenfd (r ∷ rs) (h, hs) =
      Left-bind (closes_of d) (closes_of-append d) 0 0 (connection d r.accepted) (connections d rs)
        _ _
        (Leaves-after (closes_of d) (closes_of-append d) 0 (connection d r.accepted)
          (Call.accept listenfd ∷ []) (accepted_case service fork_failed listenfd r r.accepted) refl
          (accepted_case-Leaves listenfd r r.accepted h))
        (rounds-Left listenfd rs hs)

  -- If the parent closes a connection for which fork fails and nothing else, or exits, then as long
  -- as it has not exited it has called close on each descriptor, whichever it is, exactly as often
  -- as accept has given it: it closes each connection, and nothing else.
  pub rounds-closes :
      (listenfd : ℕ) (rs : List (Round W)) (cs : List Call)
      → AllParent rs
      → rounds service fork_failed listenfd rs ≡ waits cs
      → connections d rs ≡ closes_of d cs
  rounds-closes listenfd rs cs h e =
      let left = rw e at (rounds-Left listenfd rs h) in omega (arith, left)
