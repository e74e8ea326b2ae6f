-- ===== src/StrCli/Fork/Stops.antt =====
-- What the two processes of fork_str_cli can do.
use network_pragramming.Prelude.{Option, none, some, List, [], ◌∷◌, Bytes}
use network_pragramming.Sys.{c_string}
use network_pragramming.StrCli.Fork.{Line}

-- The lines before the end of stdin.
abbrev pub typed_lines : List (Option Line) → List Bytes
typed_lines [] = []
typed_lines (none ∷ more) = []
typed_lines (some l ∷ more) = c_string l.sendline ∷ typed_lines more
