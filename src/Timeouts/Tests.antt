-- ===== src/Timeouts/Tests.antt =====
-- C/advio.c on concrete answers.
use network_pragramming.Prelude.{
  ℕ, ◌==◌, if◌then◌else◌, ◌≡◌, refl, none, some, List, [], ◌∷◌, codes,
}
use network_pragramming.Sys.{Errno, failed, gave, Call, returns}
use network_pragramming.Sys.Trace.{closes_of}
use network_pragramming.Timeouts.{connect_timeout, readable_timeout, dg_cli}
use network_pragramming.Timeouts.Restores.{handler, pending, connect_timeout-restores}

connect_timeout-restores_example :
    (cs : List Call) × (connect_timeout 3 5
        (record { signalled = gave 7; connected = failed Errno.eintr; closed = gave tt })
      ≡ returns cs (failed Errno.etimedout))
    × (handler 7 cs ≡ 7)
    × (pending 9 cs ≡ 0)
    × ((d : ℕ) → closes_of d cs ≡ (if 3 == d then 1 else 0))
connect_timeout-restores_example = connect_timeout-restores 3 5 7 9 (failed Errno.eintr)

readable_run : readable_timeout 3 5 (gave 0) ≡ returns (Call.select_one 3 5 ∷ []) (gave 0)
unfolding readable_timeout
readable_run = refl

-- The first line ends the loop; nothing is sent.
dg_cli_run : dg_cli 3 (some (codes "hi\n") ∷ none ∷ []) ≡ returns [] tt
unfolding dg_cli
dg_cli_run = refl
