-- ===== src/Names.antt =====
-- The programs that look names up: C/dns.c and C/gethostbyname.c in Hosts, C/getservbyname.c in
-- Services; C/unixbind.c and C/endian.c in Local.
pub mod Hosts
pub mod Services
pub mod Local
mod Tests
use network_pragramming.Prelude.{ℕ, Option, List, [], ◌∷◌, Bytes, codes, ◌++◌}

pub data Family : Type 0 where
  af_inet af_inet6 other : Family

-- inet_ntop(family, address, …, size) of the C library: the text of the address, or the null
-- pointer where it does not fit.
abbrev pub Ntop : Type 0
Ntop = Family → Bytes → ℕ → Option Bytes

abbrev pub inet_addrstrlen : ℕ
inet_addrstrlen = 16

abbrev pub newline : Bytes
newline = b'\n' ∷ []
