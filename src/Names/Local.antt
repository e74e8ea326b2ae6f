-- ===== src/Names/Local.antt =====
-- C/unixbind.c, which binds a name in the file system, and C/endian.c.
use network_pragramming.Prelude.{
  ℕ, ◌-◌, ◌&&◌, List, [], ◌∷◌, ◌++◌, Bytes, codes, take, length, ◌==◌, if◌then◌else◌,
}
use network_pragramming.Sys.{
  Answer, failed, gave, Call, Prog, exit, exit_failure, exit_minus_one, call, call_or_exit, returns,
  ◌>>=◌, ◌>>◌,
}
use network_pragramming.Decimal.{decimal}
use network_pragramming.Names.{newline}

-- sizeof(addr1.sun_path)
abbrev pub path_size : ℕ
path_size = 108

name_or_exit : Answer (Bytes × ℕ) → Prog (Bytes × ℕ)
name_or_exit (failed e) = exit exit_failure
name_or_exit (gave name) = returns [] name

-- main of C/unixbind.c over argv[1], …; getsockname gives the name and the length of the
-- address.
unfoldable pub unixbind :
    List Bytes → Answer ℕ → Answer (Unit {0}) → Answer (Bytes × ℕ) → Prog (Unit {0})
unfolding name_or_exit
unixbind (path ∷ []) sock bound named = do
  fd ← call_or_exit Call.socket exit_failure sock
  call (Call.unlink path)
  ok ← call_or_exit (Call.bind_to fd (take (path_size - 1) path)) exit_failure bound
  name ← name_or_exit named
  call (
      Call.put
        (codes "bound name = " ++ name.0 ++ codes ", returned len = " ++ decimal name.1 ++ newline))
  exit exit_failure
unixbind argv sock bound named = exit exit_failure

-- The texts of C/endian.c.
abbrev big : Bytes
big = codes "big-endian.\n"

abbrev little : Bytes
little = codes "little-endian.\n"

-- The test of the two bytes.
order : Bytes → Bytes
order (first ∷ second ∷ _) =
    if (first == 1) && (second == 2)
    then big
    else if (first == 2) && (second == 1)
    then little
    else codes "unknown.\n"
order short = codes "unknown.\n"

-- main of C/endian.c on a machine that stores the short 0x0102 as the bytes `stored`.
unfoldable pub endian : Bytes → Prog ℕ
unfolding order
endian stored =
    if length stored == 2
    then returns (Call.put (order stored) ∷ []) 0
    else returns
        (Call.put (codes "sizeof(short) = " ++ decimal (length stored) ++ codes ".\n") ∷ [])
        exit_minus_one
