-- ===== src/SelectSrvBetter/Reference/View.antt =====
-- The clients of C/select_srv_better.c as a multiset, without the order of their slots.
use mathlib.Core.List.Perm
use mathlib.Core.List.{Perm}
use mathlib.Core.List as CoreList
use mathlib.Core.Quot.{sound}
use mathlib.Mathlib.Data.Multiset.Defs.{Multiset, of_list}
use mathlib.Mathlib.Data.Multiset.ZeroCons.{cons}
use mathlib.Mathlib.Data.Multiset.Filter as Multisets
use network_pragramming.Prelude.{
  ℕ, suc, ◌+◌, ◌-◌, ◌≤◌, ◌<◌, ◌≡◌, ◌⊎◌, refl, ap, ◌∙◌, Bool, true, false, not, ◌&&◌, none, some,
  List, [], ◌∷◌, ◌++◌, Bytes, length, drop, arith, ◌==◌, if◌then◌else◌, leb, Bool-cases, inl, inr,
}
use network_pragramming.Sys.{gave, Call, Prog, returns, after, FdSet, fd_ready, fd_set}
use network_pragramming.Slots.{Slots, used, store, first_free}
use network_pragramming.SelectSrvBetter.{
  Server, Selected, Round, read_client, stored, max_connections, round, new_connection, add_client,
  serve_clients, handle_ready, handle_selected,
}
use network_pragramming.SelectSrvBetter.Complete.{ready_count, take-ready_count}
use network_pragramming.SelectSrvBetter.Reference.{
  serve_all, serve_all-untouched, clients-serve_all, round-serve_all,
}
use network_pragramming.SelectSrvBetter.Invariant.{IsValid, limit-above}

abbrev pub clients_of : Slots → List ℕ
clients_of [] = []
clients_of (none ∷ ss) = clients_of ss
clients_of (some sd ∷ ss) = sd ∷ clients_of ss

abbrev pub view : Server → Multiset ℕ
view s = of_list (clients_of s.cli_socks)

abbrev is_empty : Bytes → Bool
is_empty [] = true
is_empty (b ∷ bytes) = false

-- A client stays unless it is ready and its read finds the end of the file, or fails.
abbrev pub stays : Round → FdSet → ℕ → Bool
stays r rfds sd = not (rfds sd && is_empty (stored 255 (r.received sd)))

pub false_not_true : ¬ (false ≡ true)
false_not_true e = ground arith

abbrev pub decide_true : (b : Bool) → Dec (b ≡ true)
decide_true true = yes refl
decide_true false = no false_not_true

-- What a round does to the clients.
abbrev pub serve : Round → FdSet → Multiset ℕ → Multiset ℕ
serve r rfds v = Multisets.filter (λ sd. decide_true (stays r rfds sd)) v

abbrev pub arrive : Bool → ℕ → Multiset ℕ → Multiset ℕ
arrive true new v = cons new v
arrive false new v = v

bytes_cases : (b : Bytes) → (b ≡ []) ⊎ ((c : ℕ) × (cs : Bytes) × (b ≡ c ∷ cs))
bytes_cases [] = inl refl
bytes_cases (c ∷ cs) = inr (c, cs, refl)

clients_of-serve_all :
    (r : Round) (rfds : FdSet) (ss : Slots) (active : FdSet)
    → clients_of (serve_all r rfds ss active).slots
      ≡ CoreList.filter (λ sd. decide_true (stays r rfds sd)) (clients_of ss)
unfolding serve_all read_client
clients_of-serve_all r rfds [] active = refl
clients_of-serve_all r rfds (none ∷ ss) active = clients_of-serve_all r rfds ss active
clients_of-serve_all r rfds (some sd ∷ ss) active = elim (Bool-cases (rfds sd)) [
  | inr e ↦ rw e (ap (λ l. sd ∷ l) (clients_of-serve_all r rfds ss active))
  | inl e ↦ elim (bytes_cases (stored 255 (r.received sd))) [
    | inl b ↦ rw (e, b) (clients_of-serve_all r rfds ss _)
    | inr (c, cs, b) ↦ rw (e, b) (ap (λ l. sd ∷ l) (clients_of-serve_all r rfds ss active))
  ]
]

pub store-Perm :
    (new : ℕ) (ss : Slots)
    → first_free ss < length ss
    → Perm (clients_of (store new ss)) (new ∷ clients_of ss)
unfolding store first_free
store-Perm new [] h = absurd (omega arith)
store-Perm new (none ∷ ss) h = Perm.refl (new ∷ clients_of ss)
store-Perm new (some sd ∷ ss) h =
    Perm.trans (Perm.cons sd (store-Perm new ss (omega arith))) (Perm.swap new sd (clients_of ss))

ready_count-store :
    (rfds : FdSet) (new : ℕ) (ss : Slots)
    → rfds new ≡ false
    → ready_count rfds (store new ss) ≡ ready_count rfds ss
unfolding store
ready_count-store rfds new [] h = refl
ready_count-store rfds new (none ∷ ss) h = rw h refl
ready_count-store rfds new (some sd ∷ ss) h = ground (arith, ready_count-store rfds new ss h)

-- The state after a loop over all slots.
served : Round → FdSet → Server → Prog Server
served r rfds s =
    let t = serve_all r rfds s.cli_socks s.active_fds in
    returns t.calls (record s { cli_socks = t.slots; active_fds = t.active })

handle_ready-served :
    (r : Round) (rfds : FdSet) (n : ℕ) (s : Server)
    → used (drop s.limit s.cli_socks) ≡ 0
    → ready_count rfds s.cli_socks ≤ n
    → serve_clients r rfds n s ≡ served r rfds s
unfolding serve_clients served
handle_ready-served r rfds n s above enough =
    rw
      (clients-serve_all r rfds s.limit n s.cli_socks s.active_fds above
        (ground (arith, take-ready_count rfds s.limit s.cli_socks)))
      refl

new_connection-served :
    (r : Round) (rfds : FdSet) (n new : ℕ) (s : Server)
    → used (drop s.limit s.cli_socks) ≡ 0
    → (first_free s.cli_socks == max_connections) ≡ false
    → rfds new ≡ false
    → suc (ready_count rfds s.cli_socks) ≤ n
    → new_connection r rfds n (gave new) s ≡ served r rfds (add_client new s)
unfolding new_connection served add_client
new_connection-served r rfds n new s above room fresh enough =
    let same = ready_count-store rfds new s.cli_socks fresh in
    elim (Bool-cases (leb n 1)) [
      | inl l ↦
          rw
            (
              room,
              l,
              serve_all-untouched r rfds (store new s.cli_socks) (fd_set new s.active_fds)
                  (ground arith),
            )
            refl
      | inr l ↦
          rw (room, l)
            (handle_ready-served r rfds (n - 1) (add_client new s)
              (limit-above new s.limit s.cli_socks above) (ground arith))
    ]

served-serve :
    (r : Round) (rfds : FdSet) (s : Server) (v : Multiset ℕ)
    → view s ≡ v
    → (cs : List Call) × (t : Server) × (served r rfds s ≡ returns cs t) × (view t ≡ serve r rfds v)
unfolding served
served-serve r rfds s v e =
    let t = serve_all r rfds s.cli_socks s.active_fds in
    (
      t.calls,
      record s { cli_socks = t.slots; active_fds = t.active },
      refl,
      ap of_list (clients_of-serve_all r rfds s.cli_socks s.active_fds) ∙ ap (serve r rfds) e,
    )

after_calls :
    (ds : List Call) (p : Prog Server) (v : Multiset ℕ)
    → ((cs : List Call) × (t : Server) × (p ≡ returns cs t) × (view t ≡ v))
    → (cs : List Call) × (t : Server) × (after ds p ≡ returns cs t) × (view t ≡ v)
after_calls ds p v (cs, t, e, w) = (ds ++ cs, t, rw e refl, w)

-- In a valid state, if select reports at least as many ready descriptors as there are ready
-- clients and a knock, and a knock finds a free slot and gets a descriptor that is not watched,
-- then a round is a function of the multiset of clients: the new client joins them, and those stay
-- that are not ready or whose read stores something. In which slots they stand does not matter.
pub round-refines_serve :
    (s : Server) (r : Round) (q : Selected) (new : ℕ) (knocks : Bool)
    → IsValid s
    → r.selected ≡ gave q
    → r.accepted ≡ gave new
    → q.fds s.master_sock ≡ knocks
    → s.active_fds new ≡ false
    → (knocks ≡ true → first_free s.cli_socks < 10)
    → ready_count (fd_ready s.active_fds q.fds) s.cli_socks + (if knocks then 1 else 0) ≤ q.nready
    → (cs : List Call) × (t : Server) × (round s r ≡ returns cs t)
      × (view t ≡ serve r (fd_ready s.active_fds q.fds) (arrive knocks new (view s)))
unfolding round handle_selected handle_ready add_client
round-refines_serve s r q new true v e a k fresh room enough =
    let rfds = fd_ready s.active_fds q.fds in
    let knock : rfds s.master_sock ≡ true = ground (arith, v.listens) in
    let some_ready : (q.nready == 0) ≡ false = ground arith in
    let free : (first_free s.cli_socks == max_connections) ≡ false = ground (arith, room refl) in
    let unready : rfds new ≡ false = ground arith in
    rw
      (
        e,
        some_ready,
        knock,
        a,
        new_connection-served r rfds q.nready new s v.above free unready (ground arith),
      )
      (after_calls (Call.select ∷ []) _ _ (
        after_calls (Call.accept s.master_sock ∷ []) (served r rfds (add_client new s)) _ (
          served-serve r rfds (add_client new s) (cons new (view s))
            (sound (store-Perm new s.cli_socks (ground (arith, v.sized, room refl)))))))
round-refines_serve s r q new false v e a k fresh room enough =
    let rfds = fd_ready s.active_fds q.fds in
    let t = serve_all r rfds s.cli_socks s.active_fds in
    (
      Call.select ∷ t.calls,
      record s { cli_socks = t.slots; active_fds = t.active },
      round-serve_all s r q v.above e k (omega (arith, enough)),
      ap of_list (clients_of-serve_all r rfds s.cli_socks s.active_fds),
    )
