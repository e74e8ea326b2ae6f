-- ===== src/SelectSrvBetter/Reference/WholeRun.antt =====
-- C/select_srv_better.c over whole runs, against a server that is only the multiset of its clients.
use mathlib.Core.List as CoreList
use mathlib.Mathlib.Data.Multiset.Defs.{Multiset, of_list}
use network_pragramming.Prelude.{
  ℕ, ◌+◌, ◌≤◌, ◌<◌, ◌≡◌, refl, ap, ◌∙◌, Bool, true, false, none, some, List, [], ◌∷◌, Bytes, arith,
  if◌then◌else◌,
}
use network_pragramming.Sys.{Answer, gave, Call, returns, FdSet, fd_ready}
use network_pragramming.Slots.{Slots, held, first_free}
use network_pragramming.SelectSrvBetter.{Server, Round, round}
use network_pragramming.SelectSrvBetter.Complete.{ready_count}
use network_pragramming.SelectSrvBetter.Invariant.{IsValid, round-keeps_table}
use network_pragramming.SelectSrvBetter.Reference.View.{
  clients_of, view, stays, decide_true, serve, arrive, round-refines_serve,
}

-- A round in which select and accept succeed; `knocks` tells whether there is a new connection.
pub record Visit : Type 0 where
  pub nready : ℕ
  pub fds : FdSet
  pub knocks : Bool
  pub new : ℕ
  pub received : ℕ → Answer Bytes

abbrev pub round_of : Visit → Round
round_of v = record {
  selected = gave (record { nready = v.nready; fds = v.fds });
  accepted = gave v.new;
  received = v.received;
}

-- The server without its table: those stay that are not ready or have sent something, and then the
-- new client joins them.
abbrev pub spec : List Visit → Multiset ℕ → Multiset ℕ
spec [] clients = clients
spec (v ∷ vs) clients = spec vs (arrive v.knocks v.new (serve (round_of v) v.fds clients))

-- What the system keeps to in a round: a knock is at the listening socket, finds a free slot and
-- gets a descriptor that is not open, and nready counts all that is ready.
pub record Keeps (s : Server) (v : Visit) : Type 0 where
  pub at_master : v.fds s.master_sock ≡ v.knocks
  pub fresh : s.active_fds v.new ≡ false
  pub free : v.knocks ≡ true → first_free s.cli_socks < 10
  pub counts :
      ready_count (fd_ready s.active_fds v.fds) s.cli_socks + (if v.knocks then 1 else 0) ≤ v.nready

-- Some rounds of the server.
pub data Follows : Server → List Visit → Server → Type 0 where
  stop : (s : Server) → Follows s [] s
  visit :
      (s t u : Server) (v : Visit) (vs : List Visit) (cs : List Call)
      → Keeps s v
      → round s (round_of v) ≡ returns cs t
      → Follows t vs u
      → Follows s (v ∷ vs) u

-- A client is watched, so that it is ready if select says so.
filter-stays :
    (r : Round) (active fds : FdSet) (ss : Slots)
    → ((fd : ℕ) → 1 ≤ held fd ss → active fd ≡ true)
    → CoreList.filter (λ sd. decide_true (stays r (fd_ready active fds) sd)) (clients_of ss)
      ≡ CoreList.filter (λ sd. decide_true (stays r fds sd)) (clients_of ss)
filter-stays r active fds [] h = refl
filter-stays r active fds (none ∷ ss) h = filter-stays r active fds ss h
filter-stays r active fds (some sd ∷ ss) h =
    let on : active sd ≡ true = h sd (ground arith) in
    let rest = filter-stays r active fds ss (λ fd l. h fd (ground (arith, l))) in rw (on, rest) refl

serve-arrive :
    (r : Round) (s : Server) (fds : FdSet) (knocks : Bool) (new : ℕ)
    → IsValid s
    → s.active_fds new ≡ false
    → serve r (fd_ready s.active_fds fds) (arrive knocks new (view s))
      ≡ arrive knocks new (serve r fds (view s))
serve-arrive r s fds false new v fresh = ap of_list (
    filter-stays r s.active_fds fds s.cli_socks
      (λ fd l. v.watched fd (omega (arith, v.distinct fd))))
serve-arrive r s fds true new v fresh = rw fresh (
    ap (λ l. of_list (new ∷ l))
      (filter-stays r s.active_fds fds s.cli_socks
        (λ fd l. v.watched fd (omega (arith, v.distinct fd)))))

visit-refines :
    (s : Server) (v : Visit) (cs : List Call) (t : Server)
    → IsValid s
    → Keeps s v
    → round s (round_of v) ≡ returns cs t
    → view t ≡ arrive v.knocks v.new (serve (round_of v) v.fds (view s))
visit-refines s v cs t valid k e =
    let (ds, u, e', w) =
      round-refines_serve s (round_of v) (record { nready = v.nready; fds = v.fds }) v.new v.knocks
        valid refl refl k.at_master k.fresh k.free k.counts in
    let same : t ≡ u = cc (e, e') in
    ap view same ∙ w ∙ serve-arrive (round_of v) s v.fds v.knocks v.new valid k.fresh

-- Over any number of rounds from a valid state, while each knock finds a free slot and gets a
-- descriptor that is not open and nready counts all that is ready, the clients that the server ends
-- with are a function of their multiset at the start and of what the system answers: in each round
-- those stay that are not ready or have sent something, and the new client joins them. The table,
-- its order and its bounds do not matter.
pub Follows-spec :
    (s u : Server) (vs : List Visit) → IsValid s → Follows s vs u → view u ≡ spec vs (view s)
Follows-spec s _ [] valid (stop _) = refl
Follows-spec s u _ valid (visit _ t _ v vs cs k e run) =
    let w = round-keeps_table s (round_of v) cs t valid k.fresh e in
    Follows-spec t u vs w run ∙ ap (spec vs) (visit-refines s v cs t valid k e)
