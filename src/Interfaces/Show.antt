-- ===== src/Interfaces/Show.antt =====
-- The loop of main of C/simple_interface_info.c that prints the interfaces, with sock_ntop_host.
-- ifi_index and ifi_mtu are taken to be at least 0.
use network_pragramming.Prelude.{
  ℕ, ◌+◌, ◌-◌, ◌/◌, ◌%◌, Bool, Option, none, some, List, [], ◌∷◌, ◌++◌, Bytes, codes, take, ltb,
  ◌==◌, if◌then◌else◌,
}
use network_pragramming.Sys.{Call, Prog, returns, exits, exit, exit_failure, call, ◌>>=◌, ◌>>◌}
use network_pragramming.Decimal.{decimal}
use network_pragramming.Names.{Family, Ntop}

abbrev pub ip_len : ℕ
ip_len = 16

abbrev ifi_haddr_size : ℕ
ifi_haddr_size = 8

-- A read behind the array is undefined.
abbrev undefined : ℕ
undefined = 134

pub record Sockaddr : Type 0 where
  pub family : Family
  pub address : Bytes

-- The flags that main prints.
pub record Flags : Type 0 where
  pub up : Bool
  pub broadcast : Bool
  pub multicast : Bool
  pub loopback : Bool
  pub pointopoint : Bool

-- A struct ifi_info, as main reads it; a null pointer is `none`.
pub record Info : Type 0 where
  pub name : Bytes
  pub index : ℕ
  pub mtu : ℕ
  pub haddr : Bytes
  pub hlen : ℕ
  pub flags : Flags
  pub addr : Option Sockaddr
  pub brdaddr : Option Sockaddr
  pub dstaddr : Option Sockaddr

abbrev newline : Bytes
newline = b'\n' ∷ []

-- inet_ntop in a case of sock_ntop_host.
host_text : Option Bytes → Prog Bytes
host_text none = exit exit_failure
host_text (some text) = returns [] text

sock_ntop_host : Ntop → Bytes → Family → Prog Bytes
unfolding host_text
sock_ntop_host ntop address Family.af_inet = do
  call (Call.put (codes "AF_INET.\n"))
  host_text (ntop Family.af_inet address ip_len)
sock_ntop_host ntop address Family.af_inet6 = do
  call (Call.put (codes "AF_INET6.\n"))
  host_text (ntop Family.af_inet6 address ip_len)
sock_ntop_host ntop address Family.other =
    exits (Call.put (codes "unknown type.\n") ∷ []) exit_failure

-- `if (NULL != (sa = …)) { sock_ntop_host(sa, ip); printf(…, ip); }`
show_addr : Ntop → Bytes → Option Sockaddr → Prog (Unit {0})
unfolding sock_ntop_host
show_addr ntop label none = returns [] tt
show_addr ntop label (some sa) = do
  ip ← sock_ntop_host ntop sa.address sa.family
  call (Call.put (label ++ ip ++ newline))

hex_digit : ℕ → ℕ
hex_digit d = if ltb d 10 then b'0' + d else b'a' + (d - 10)

-- `%x` of an unsigned char.
hex : ℕ → Bytes
unfolding hex_digit
hex n = if ltb n 16 then hex_digit n ∷ [] else hex_digit (n / 16) ∷ hex_digit (n % 16) ∷ []

-- `do { … } while (--i > 0);`
haddr_text : Bytes → Bytes → Bytes
unfolding hex
haddr_text separator [] = []
haddr_text separator (b ∷ rest) = separator ++ hex b ++ haddr_text (b':' ∷ []) rest

when : Bool → Bytes → Bytes
when b text = if b then text else []

flags_text : Flags → Bytes
unfolding when
flags_text f =
    codes "<"
    ++ when f.up (codes "UP ")
    ++ when f.broadcast (codes "BCAST ")
    ++ when f.multicast (codes "MCAST ")
    ++ when f.loopback (codes "LOOP ")
    ++ when f.pointopoint (codes "P2P ")
    ++ codes ">\n"

index_text : ℕ → Bytes
index_text index = if index == 0 then [] else codes "(" ++ decimal index ++ codes ") "

mtu_text : ℕ → Bytes
mtu_text mtu = if mtu == 0 then [] else codes "   MTU: " ++ decimal mtu ++ newline

-- The body of the loop.
show_info : Ntop → Info → Prog (Unit {0})
unfolding haddr_text flags_text index_text mtu_text show_addr
show_info ntop i = do
  call (Call.put (i.name ++ codes ": " ++ index_text i.index ++ flags_text i.flags))
  haddr ← if ltb ifi_haddr_size i.hlen then exit undefined else returns [] (take i.hlen i.haddr)
  call (Call.put (haddr_text (codes "   ") haddr ++ newline ++ mtu_text i.mtu))
  show_addr ntop (codes "   IP addr: ") i.addr
  show_addr ntop (codes "   broadcast addr: ") i.brdaddr
  show_addr ntop (codes "   destination addr: ") i.dstaddr

-- The loop, with the end of main; free_ifi_info makes no call of the system.
unfoldable pub show_infos : Ntop → List Info → Prog (Unit {0})
unfolding show_info
show_infos ntop [] = exit 0
show_infos ntop (i ∷ rest) = show_info ntop i >> show_infos ntop rest
