-- ===== src/Interfaces/Listing/Endless.antt =====
-- How get_ifi_info of C/simple_interface_info.c runs.
use network_pragramming.Prelude.{
  ℕ, ◌≡◌, ◌⊎◌, inl, inr, refl, ◌==◌, arith, append-nil, Bool-cases, Bool, true, false, not, ◌&&◌,
  List, [], ◌∷◌, ◌++◌, Bytes, if◌then◌else◌,
}
use network_pragramming.Sys.{
  Errno, Answer, failed, gave, Call, Prog, returns, exits, waits, exit, trace, after,
}
use network_pragramming.Sys.Rules.{
  Post, Post-after, Post-bind, Post-imp, Post-skip, Post-returns, Ensures, Ensures-after,
  Ensures-bind, Ensures-trace,
}
use network_pragramming.Interfaces.Listing.{
  Family, Interface, Round, freed_case, pointopoint_case, up_case, flags_case, interfaces,
  same_family, is_alias, before_colon, list_failed, listed_case, round, rounds, get_ifi_info,
}

-- Every ioctl asks the descriptor 0.
abbrev pub AsksStdin : List Call → Type 0
AsksStdin [] = Unit
AsksStdin (Call.ioctl d ∷ cs) = (d ≡ 0) × AsksStdin cs
AsksStdin (c ∷ cs) = AsksStdin cs

AsksStdin-append : (cs ds : List Call) → AsksStdin cs → AsksStdin ds → AsksStdin (cs ++ ds)
AsksStdin-append [] ds h k = k
AsksStdin-append (Call.ioctl d ∷ cs) ds (e, h) k = (e, AsksStdin-append cs ds h k)
AsksStdin-append (_ ∷ cs) ds h k = AsksStdin-append cs ds h k

-- A program that keeps to that, whatever comes before it.
abbrev Stdin : Prog (Unit {0}) → Type 0
Stdin p = (cs : List Call) → AsksStdin cs → Ensures cs (λ ds _. AsksStdin ds) AsksStdin p

Stdin-after : (ds : List Call) (p : Prog (Unit {0})) → AsksStdin ds → Stdin p → Stdin (after ds p)
Stdin-after ds p d h cs k =
    Ensures-after (λ es _. AsksStdin es) AsksStdin cs ds p
      (h (cs ++ ds) (AsksStdin-append cs ds k d))

Stdin-calls : (p : Prog (Unit {0})) → AsksStdin (trace p) → Stdin p
Stdin-calls (returns ds u) d cs k = AsksStdin-append cs ds k d
Stdin-calls (exits ds n) d cs k = AsksStdin-append cs ds k d
Stdin-calls (waits ds) d cs k = AsksStdin-append cs ds k d

Stdin-if : (b : Bool) (p q : Prog (Unit {0})) → Stdin p → Stdin q → Stdin (if b then p else q)
Stdin-if true p q h k = h
Stdin-if false p q h k = k

freed_case-Stdin : (is : List Interface) → Stdin (freed_case is)
unfolding freed_case
freed_case-Stdin [] = Stdin-calls (returns [] tt) tt
freed_case-Stdin (i ∷ is) = Stdin-calls (exit 134) tt

up_case-Stdin : (i : Interface) (more : List Interface) (f : Family) → Stdin (up_case 0 i more f)
unfolding up_case pointopoint_case
up_case-Stdin i more Family.af_inet =
    Stdin-if i.broadcast _ _ (Stdin-calls (exits (Call.ioctl 0 ∷ []) 139) (refl, tt)) (
      Stdin-if i.pointopoint _ _
        (Stdin-after (Call.ioctl 0 ∷ []) _ (refl, tt) (freed_case-Stdin more))
        (freed_case-Stdin more))
up_case-Stdin i more Family.af_inet6 =
    Stdin-if i.pointopoint _ _
      (Stdin-after (Call.ioctl 0 ∷ []) _ (refl, tt) (freed_case-Stdin more)) (freed_case-Stdin more)
up_case-Stdin i more Family.other = freed_case-Stdin more

interfaces-Stdin :
    (f : Family) (a : Bool) (lastname : Bytes) (is : List Interface)
    → Stdin (interfaces 0 f a lastname is)
unfolding interfaces flags_case
interfaces-Stdin f a lastname [] = Stdin-calls (returns [] tt) tt
interfaces-Stdin f a lastname (i ∷ more) =
    Stdin-if (not (same_family i.family f)) _ _ (interfaces-Stdin f a lastname more) (
      Stdin-if (is_alias lastname i && not a) _ _ (interfaces-Stdin f a lastname more) (
        Stdin-after (Call.ioctl 0 ∷ []) _ (refl, tt)
          (Stdin-if (not i.up) _ _ (interfaces-Stdin f a (before_colon i.name) more)
            (up_case-Stdin i more i.family))))

listed_case-Stdin :
    (f : Family) (a : Bool) (n : ℕ) (l : Answer (List Interface)) (cs : List Call)
    → AsksStdin cs
    → Ensures cs (λ ds _. AsksStdin ds) AsksStdin (listed_case 0 f a n l)
unfolding listed_case list_failed
listed_case-Stdin f a n (failed Errno.einval) cs k = elim (Bool-cases (n == 0)) [
  | inl z ↦ rw (z, append-nil cs) k
  | inr z ↦ rw (z, append-nil cs) k
]
listed_case-Stdin f a n (failed _) cs k = rw (append-nil cs) k
listed_case-Stdin f a n (gave is) cs k =
    Ensures-bind (λ ds _. AsksStdin ds) (λ ds _. AsksStdin ds) AsksStdin cs (interfaces 0 f a [] is)
      _ (interfaces-Stdin f a [] is cs k) λ ds _ h. rw (append-nil ds) h

round-Stdin :
    (f : Family) (a : Bool) (r : Round) (cs : List Call)
    → AsksStdin cs
    → Ensures cs (λ ds _. AsksStdin ds) AsksStdin (round 0 f a r)
unfolding round
round-Stdin f a r cs k = elim (Bool-cases r.allocated) [
  | inl m ↦ rw m (
      Ensures-after (λ ds _. AsksStdin ds) AsksStdin cs (Call.ioctl 0 ∷ []) _
        (listed_case-Stdin f a r.ifc_len r.listed (cs ++ (Call.ioctl 0 ∷ []))
          (AsksStdin-append cs (Call.ioctl 0 ∷ []) k (refl, tt))))
  | inr m ↦ rw (m, append-nil cs) k
]

rounds-Stdin : (f : Family) (a : Bool) (rs : List Round) → Stdin (rounds 0 f a rs)
unfolding rounds
rounds-Stdin f a [] cs k = Stdin-calls (waits []) tt cs k
rounds-Stdin f a (r ∷ rs) cs k =
    Ensures-bind (λ ds _. AsksStdin ds) (λ ds _. AsksStdin ds) AsksStdin cs (round 0 f a r) _
      (round-Stdin f a r cs k)
      (λ ds broken h.
        Stdin-if broken _ _ (Stdin-calls (returns [] tt) tt) (rounds-Stdin f a rs) ds h)

get_ifi_info-Stdin :
    (f : Family) (a : Bool) (sock : Answer ℕ) (rs : List Round) → Stdin (get_ifi_info f a sock rs)
unfolding get_ifi_info
get_ifi_info-Stdin f a (failed e) rs = Stdin-calls (exits (Call.socket ∷ []) 1) tt
get_ifi_info-Stdin f a (gave fd) rs =
    Stdin-after (Call.socket ∷ []) (rounds 0 f a rs) tt (rounds-Stdin f a rs)

-- In one of some rounds, the ioctl fails with EINVAL and leaves 0 in ifc_len.
abbrev pub Breaks : List Round → Type 0
Breaks [] = ⊥
Breaks (r ∷ rs) = ((r.listed ≡ failed Errno.einval) × (r.ifc_len ≡ 0)) ⊎ Breaks rs

listed_case-Post :
    (f : Family) (a : Bool) (n : ℕ) (l : Answer (List Interface))
    → Post (λ broken. broken ≡ true → (l ≡ failed Errno.einval) × (n ≡ 0)) (listed_case 0 f a n l)
unfolding listed_case list_failed
listed_case-Post f a n (failed Errno.einval) = elim (Bool-cases (n == 0)) [
  | inl z ↦ rw z (λ b. (refl, ground arith))
  | inr z ↦ rw z tt
]
listed_case-Post f a n (failed _) = tt
listed_case-Post f a n (gave is) = Post-skip _ (interfaces 0 f a [] is) _ (λ u e. ground arith)

rounds-Post : (f : Family) (a : Bool) (rs : List Round) → Post (λ _. Breaks rs) (rounds 0 f a rs)
unfolding rounds round
rounds-Post f a [] = tt
rounds-Post f a (r ∷ rs) =
    Post-bind (λ broken. broken ≡ true → (r.listed ≡ failed Errno.einval) × (r.ifc_len ≡ 0))
      (λ _. Breaks (r ∷ rs)) (round 0 f a r) _ asked (next (rounds-Post f a rs))
  where
    asked :
        Post
          (λ broken. broken ≡ true → (r.listed ≡ failed Errno.einval) × (r.ifc_len ≡ 0))
          (round 0 f a r)
    asked = elim (Bool-cases r.allocated) [
      | inl m ↦ rw m (
          Post-after _ (Call.ioctl 0 ∷ []) (listed_case 0 f a r.ifc_len r.listed)
            (listed_case-Post f a r.ifc_len r.listed))
      | inr m ↦ rw m tt
    ]

    next :
        Post (λ _. Breaks rs) (rounds 0 f a rs)
        → (broken : Bool) → (broken ≡ true → (r.listed ≡ failed Errno.einval) × (r.ifc_len ≡ 0))
        → Post (λ _. Breaks (r ∷ rs)) (if broken then returns [] tt else rounds 0 f a rs)
    next later true h = inl (h refl)
    next later false h =
        Post-imp (λ _. Breaks rs) (λ _. Breaks (r ∷ rs)) (rounds 0 f a rs) later (λ _ b. inr b)

get_ifi_info-Post :
    (f : Family) (a : Bool) (sock : Answer ℕ) (rs : List Round)
    → Post (λ _. Breaks rs) (get_ifi_info f a sock rs)
unfolding get_ifi_info
get_ifi_info-Post f a (failed e) rs = tt
get_ifi_info-Post f a (gave fd) rs =
    Post-after (λ _. Breaks rs) (Call.socket ∷ []) (rounds 0 f a rs) (rounds-Post f a rs)

-- Whatever the system answers, get_ifi_info returns only behind an ioctl that fails with EINVAL and
-- sets ifc_len to 0; so it never returns where ioctl succeeds, or where one that fails leaves ifc_len
-- as it was. And each ioctl asks the descriptor 0, not the socket.
pub get_ifi_info_endless :
    (f : Family) (doaliases : Bool) (sock : Answer ℕ) (rs : List Round)
    → ((cs : List Call) → get_ifi_info f doaliases sock rs ≡ returns cs tt → Breaks rs)
      × AsksStdin (trace (get_ifi_info f doaliases sock rs))
get_ifi_info_endless f a sock rs = (
  λ cs e.
      Post-returns (λ _. Breaks rs) (get_ifi_info f a sock rs) cs tt (get_ifi_info-Post f a sock rs)
        e,
  Ensures-trace AsksStdin (get_ifi_info f a sock rs) (get_ifi_info-Stdin f a sock rs [] tt),
)
