-- ===== src/Interfaces/Listing.antt =====
-- get_ifi_info and main of C/simple_interface_info.c. get_ifi_info does not return a list, and what
-- it stores in one is left out; calloc is taken to succeed.
pub mod Endless
use network_pragramming.Prelude.{
  ℕ, Bool, true, false, not, ◌&&◌, List, [], ◌∷◌, Bytes, codes, bytes_eq, take, ◌==◌, if◌then◌else◌,
}
use network_pragramming.Sys.{
  Errno, Answer, failed, gave, Call, Prog, returns, exits, waits, exit, exit_failure, after, ◌>>=◌,
  ◌>>◌,
}
use network_pragramming.Decimal.{atoi}
use network_pragramming.Names.{Ntop}
use network_pragramming.Interfaces.Show.{Info, show_infos}

abbrev undefined : ℕ
undefined = 134

-- The program writes through a null pointer.
abbrev null_pointer : ℕ
null_pointer = 139

pub data Family : Type 0 where
  af_inet af_inet6 other : Family

same_family : Family → Family → Bool
same_family Family.af_inet Family.af_inet = true
same_family Family.af_inet6 Family.af_inet6 = true
same_family Family.other Family.other = true
same_family f g = false

-- A struct ifreq, as the code reads it at its place in the buffer, with the flags that ioctl answers
-- for it.
pub record Interface : Type 0 where
  pub family : Family
  pub name : Bytes
  pub up : Bool
  pub broadcast : Bool
  pub pointopoint : Bool

-- The name in front of ':'.
before_colon : Bytes → Bytes
before_colon [] = []
before_colon (c ∷ name) = let rest = before_colon name in if c == b':' then [] else c ∷ rest

is_alias : Bytes → Interface → Bool
unfolding before_colon
is_alias lastname i = bytes_eq (take 16 lastname) (take 16 (before_colon i.name))

-- Behind the switch, buf is freed: the test of the loop ends it if this was the last interface, and
-- else its body reads the freed buffer.
freed_case : List Interface → Prog (Unit {0})
freed_case [] = returns [] tt
freed_case (i ∷ more) = exit undefined

-- IFF_POINTOPOINT: ioctl asks for the address of the other end.
pointopoint_case : ℕ → Interface → List Interface → Prog (Unit {0})
unfolding freed_case
pointopoint_case sockfd i more =
    let rest = freed_case more in
    if i.pointopoint then after (Call.ioctl sockfd ∷ []) rest else rest

-- The switch. In the case of AF_INET, memcpy copies the broadcast address to ifi_brdaddr, which is
-- still NULL.
up_case : ℕ → Interface → List Interface → Family → Prog (Unit {0})
unfolding pointopoint_case freed_case
up_case sockfd i more Family.af_inet =
    if i.broadcast
    then exits (Call.ioctl sockfd ∷ []) null_pointer
    else pointopoint_case sockfd i more
up_case sockfd i more Family.af_inet6 = pointopoint_case sockfd i more
up_case sockfd i more Family.other = freed_case more

flags_case : ℕ → Interface → List Interface → Prog (Unit {0}) → Prog (Unit {0})
unfolding up_case
flags_case sockfd i more later =
    after (Call.ioctl sockfd ∷ []) (if not i.up then later else up_case sockfd i more i.family)

-- The loop over the interfaces, with lastname.
interfaces : ℕ → Family → Bool → Bytes → List Interface → Prog (Unit {0})
unfolding flags_case same_family is_alias
interfaces sockfd family doaliases lastname [] = returns [] tt
interfaces sockfd family doaliases lastname (i ∷ more) =
    let skipped = interfaces sockfd family doaliases lastname more in
    let down = interfaces sockfd family doaliases (before_colon i.name) more in
    if not (same_family i.family family)
    then skipped
    else if is_alias lastname i && not doaliases
    then skipped
    else flags_case sockfd i more down

-- What malloc and the ioctl for the list answer in a round of the outer loop, with ifc_len behind an
-- ioctl that fails.
pub record Round : Type 0 where
  pub allocated : Bool
  pub listed : Answer (List Interface)
  pub ifc_len : ℕ

-- The branch of an ioctl that fails; `true` is the break. lastlen is 0 there, since an EINVAL that
-- does not break leads on to free(buf), behind which the code reads buf.
list_failed : ℕ → Errno → Prog Bool
list_failed ifc_len Errno.einval = if ifc_len == 0 then returns [] true else exit undefined
list_failed ifc_len e = exit exit_failure

listed_case : ℕ → Family → Bool → ℕ → Answer (List Interface) → Prog Bool
unfolding interfaces list_failed
listed_case sockfd family doaliases ifc_len (failed e) = list_failed ifc_len e
listed_case sockfd family doaliases ifc_len (gave is) =
    interfaces sockfd family doaliases [] is >> returns [] false

round : ℕ → Family → Bool → Round → Prog Bool
unfolding listed_case
round sockfd family doaliases r =
    if not r.allocated
    then exit exit_failure
    else after (Call.ioctl sockfd ∷ []) (listed_case sockfd family doaliases r.ifc_len r.listed)

rounds : ℕ → Family → Bool → List Round → Prog (Unit {0})
unfolding round
rounds sockfd family doaliases [] = waits []
rounds sockfd family doaliases (r ∷ rs) =
    let later = rounds sockfd family doaliases rs in
    round sockfd family doaliases r >>= λ broken. if broken then returns [] tt else later

-- `sockfd = socket(…) < 0`: the comparison comes first, so that sockfd is 0 when socket succeeds.
unfoldable pub get_ifi_info : Family → Bool → Answer ℕ → List Round → Prog (Unit {0})
unfolding rounds
get_ifi_info family doaliases (failed e) rs = exits (Call.socket ∷ []) exit_failure
get_ifi_info family doaliases (gave fd) rs = after (Call.socket ∷ []) (rounds 0 family doaliases rs)

-- The family that argv[1] names.
family_case : Bytes → (Family → Prog (Unit {0})) → Prog (Unit {0})
family_case name later =
    if bytes_eq name (codes "inet4")
    then later Family.af_inet
    else if bytes_eq name (codes "inet6")
    then later Family.af_inet6
    else exit exit_failure

-- main; `infos` stands for the list that it finds in place of a result of get_ifi_info, which has no
-- return statement.
unfoldable pub main : Ntop → List Bytes → Answer ℕ → List Round → List Info → Prog (Unit {0})
unfolding family_case get_ifi_info
main ntop (name ∷ family ∷ doaliases ∷ []) sock rs infos =
    family_case family
      (λ f. get_ifi_info f (not (atoi doaliases == 0)) sock rs >> show_infos ntop infos)
main ntop argv sock rs infos = exit exit_failure
