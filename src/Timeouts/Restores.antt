-- ===== src/Timeouts/Restores.antt =====
-- C/advio.c: what connect_timeout leaves behind.
use network_pragramming.Prelude.{ℕ, ◌≡◌, refl, List, [], ◌∷◌, ◌==◌, if◌then◌else◌, arith}
use network_pragramming.Sys.{Errno, Answer, failed, gave, Call, returns}
use network_pragramming.Sys.Trace.{closes_of}
use network_pragramming.Timeouts.{connect_timeout}

-- The handler of SIGALRM and the seconds of the alarm behind a trace, from those before it.
abbrev pub handler : ℕ → List Call → ℕ
handler h [] = h
handler h (Call.handle_alarm h' ∷ cs) = handler h' cs
handler h (c ∷ cs) = handler h cs

abbrev pub pending : ℕ → List Call → ℕ
pending n [] = n
pending n (Call.alarm n' ∷ cs) = pending n' cs
pending n (c ∷ cs) = pending n cs

-- The error that the caller sees for an error of connect, if close succeeds.
abbrev pub reported : Answer (Unit {0}) → Answer (Unit {0})
reported (gave u) = gave u
reported (failed Errno.eintr) = failed Errno.etimedout
reported (failed e) = failed e

abbrev pub failures : Answer (Unit {0}) → ℕ
failures (gave u) = 0
failures (failed e) = 1

-- If signal gives the handler that was installed, and close succeeds, then connect_timeout returns
-- what connect answers, with EINTR turned into ETIMEDOUT; behind it the old handler is installed
-- again and no alarm is pending, whichever was before, and the socket, and no other descriptor, is
-- closed once if connect has failed; if it has succeeded, nothing is closed.
pub connect_timeout-restores :
    (fd nsec old alarm : ℕ) (connected : Answer (Unit {0}))
    → (cs : List Call) × (connect_timeout fd nsec
          (record { signalled = gave old; connected = connected; closed = gave tt })
        ≡ returns cs (reported connected))
      × (handler old cs ≡ old)
      × (pending alarm cs ≡ 0)
      × ((d : ℕ) → closes_of d cs ≡ (if fd == d then failures connected else 0))
unfolding connect_timeout
connect_timeout-restores fd nsec old alarm (gave u) = (_, refl, refl, refl, λ d. ground arith)
connect_timeout-restores fd nsec old alarm (failed Errno.eintr) =
    (_, refl, refl, refl, λ d. ground arith)
connect_timeout-restores fd nsec old alarm (failed Errno.eagain) =
    (_, refl, refl, refl, λ d. ground arith)
connect_timeout-restores fd nsec old alarm (failed Errno.einval) =
    (_, refl, refl, refl, λ d. ground arith)
connect_timeout-restores fd nsec old alarm (failed Errno.etimedout) =
    (_, refl, refl, refl, λ d. ground arith)
connect_timeout-restores fd nsec old alarm (failed Errno.other) =
    (_, refl, refl, refl, λ d. ground arith)
