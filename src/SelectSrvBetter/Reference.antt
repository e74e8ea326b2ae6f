-- ===== src/SelectSrvBetter/Reference.antt =====
-- The loop over the clients of C/select_srv_better.c against one that visits every slot.
pub mod View
pub mod WholeRun
use network_pragramming.Prelude.{
  ℕ, zero, suc, ◌-◌, ◌≤◌, ◌≡◌, refl, sym, ap, false, none, some, [], ◌∷◌, take, drop, arith, ◌==◌,
  if◌then◌else◌, leb, Bool-cases, inl, inr,
}
use network_pragramming.Sys.{gave, Call, returns, FdSet, fd_ready}
use network_pragramming.Slots.{Slots, used}
use network_pragramming.SelectSrvBetter.{
  Server, Selected, Round, Table, read_client, clients, stored, join, untouched, recv_buf_size,
  round,
}
use network_pragramming.SelectSrvBetter.Complete.{ready_count, take-ready_count}

-- Every slot is visited, and each ready client is served.
pub serve_all : Round → FdSet → Slots → FdSet → Table
serve_all r rfds [] active = untouched [] active
serve_all r rfds (none ∷ ss) active =
    join (untouched (none ∷ []) active) (serve_all r rfds ss active)
serve_all r rfds (some sd ∷ ss) active =
    let t = read_client sd active (stored (recv_buf_size - 1) (r.received sd)) in
    let served = join t (serve_all r rfds ss t.active) in
    let skip = join (untouched (some sd ∷ []) active) (serve_all r rfds ss active) in
    if rfds sd then served else skip

pub serve_all-untouched :
    (r : Round) (rfds : FdSet) (ss : Slots) (active : FdSet)
    → ready_count rfds ss ≡ 0
    → serve_all r rfds ss active ≡ untouched ss active
unfolding serve_all
serve_all-untouched r rfds [] active h = refl
serve_all-untouched r rfds (none ∷ ss) active h =
    ap (join (untouched (none ∷ []) active)) (serve_all-untouched r rfds ss active h)
serve_all-untouched r rfds (some sd ∷ ss) active h = elim (Bool-cases (rfds sd)) [
  | inl e ↦ absurd (ground arith)
  | inr e ↦ rw e (
      ap (join (untouched (some sd ∷ []) active))
        (serve_all-untouched r rfds ss active (rw e at h)))
]

unused-ready_count : (rfds : FdSet) (ss : Slots) → used ss ≡ 0 → ready_count rfds ss ≡ 0
unused-ready_count rfds [] h = refl
unused-ready_count rfds (none ∷ ss) h = unused-ready_count rfds ss h
unused-ready_count rfds (some sd ∷ ss) h = ground arith

ready_count-take :
    (rfds : FdSet) (k : ℕ) (ss : Slots)
    → used (drop k ss) ≡ 0
    → ready_count rfds (take k ss) ≡ ready_count rfds ss
ready_count-take rfds zero ss h = sym (unused-ready_count rfds ss h)
ready_count-take rfds (suc k) [] h = refl
ready_count-take rfds (suc k) (none ∷ ss) h = ready_count-take rfds k ss h
ready_count-take rfds (suc k) (some sd ∷ ss) h = ground (arith, ready_count-take rfds k ss h)

pub clients-serve_all :
    (r : Round) (rfds : FdSet) (left n : ℕ) (ss : Slots) (active : FdSet)
    → used (drop left ss) ≡ 0
    → ready_count rfds (take left ss) ≤ n
    → clients r rfds left n ss active ≡ serve_all r rfds ss active
unfolding clients serve_all
clients-serve_all r rfds zero n ss active u h =
    sym (serve_all-untouched r rfds ss active (unused-ready_count rfds ss u))
clients-serve_all r rfds (suc left) n [] active u h = refl
clients-serve_all r rfds (suc left) n (none ∷ ss) active u h =
    ap (join (untouched (none ∷ []) active)) (clients-serve_all r rfds left n ss active u h)
clients-serve_all r rfds (suc left) n (some sd ∷ ss) active u h = elim (Bool-cases (rfds sd)) [
  | inr e ↦ rw e (
      ap (join (untouched (some sd ∷ []) active))
        (clients-serve_all r rfds left n ss active u (rw e at h)))
  | inl e ↦
      let t = read_client sd active (stored (recv_buf_size - 1) (r.received sd)) in
      let h' : suc (ready_count rfds (take left ss)) ≤ n = rw e at h in
      elim (Bool-cases (leb n 1)) [
        | inl l ↦
            rw (e, l)
              (ap (join t) (
                sym (
                  serve_all-untouched r rfds ss t.active
                    (ground (arith, ready_count-take rfds left ss u)))))
        | inr l ↦
            rw (e, l)
              (ap (join t) (clients-serve_all r rfds left (n - 1) ss t.active u (ground arith)))
      ]
]

-- If select reports no new connection and at least as many ready descriptors as there are ready
-- clients, and no slot at or above the loop's limit is in use, then a round does what a loop over
-- all slots does: the bound maxi and the count nready only save visits.
pub round-serve_all :
    (s : Server) (r : Round) (q : Selected)
    → used (drop s.limit s.cli_socks) ≡ 0
    → r.selected ≡ gave q
    → q.fds s.master_sock ≡ false
    → ready_count (fd_ready s.active_fds q.fds) s.cli_socks ≤ q.nready
    → let t = serve_all r (fd_ready s.active_fds q.fds) s.cli_socks s.active_fds in
      round s r
      ≡ returns (Call.select ∷ t.calls) (record s { cli_socks = t.slots; active_fds = t.active })
unfolding round serve_all
round-serve_all s r q above e quiet enough =
    let rfds = fd_ready s.active_fds q.fds in
    let off : rfds s.master_sock ≡ false = ground arith in
    elim (Bool-cases (q.nready == 0)) [
      | inl z ↦ rw (e, z, serve_all-untouched r rfds s.cli_socks s.active_fds (ground arith)) refl
      | inr z ↦
          rw
            (
              e,
              z,
              off,
              clients-serve_all r rfds s.limit q.nready s.cli_socks s.active_fds above
                  (ground (arith, take-ready_count rfds s.limit s.cli_socks)),
            )
            refl
    ]
