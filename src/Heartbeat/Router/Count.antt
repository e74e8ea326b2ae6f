-- ===== src/Heartbeat/Router/Count.antt =====
-- C/heartbeat_router.c: the counter in its file, and a row of timer signals.
use network_pragramming.Prelude.{
  ℕ, zero, suc, ◌+◌, ◌^◌, ◌<◌, ◌≡◌, inl, inr, refl, ap, ◌∙◌, Bool, true, false, not, ◌&&◌, some, [],
  ◌∷◌, ◌++◌, Bytes, replicate, arith, ltb, leb, if◌then◌else◌, Bool-cases, length-append,
  take_of_length-le,
}
use network_pragramming.Decimal.{decimal, atoi, atoi-decimal, length-decimal}
use network_pragramming.Heartbeat.Router.{
  Access, Accesses, Process, World, Done, Tally, timer, write_expire_cnt, read_expire_cnt, has_null,
  number_in, int_limit, is_due, reset_peer, count_on, alarm_case, sig_handler, at_parent, step, run,
  reboots, peer_expire_cnt,
}

-- The content of the file that holds n.
abbrev pub text_of : ℕ → Bytes
text_of n = decimal n ++ (0 ∷ [])

has_null-append : (s : Bytes) → has_null (s ++ (0 ∷ [])) ≡ true
unfolding has_null
has_null-append [] = refl
has_null-append (c ∷ s) = ground (arith, has_null-append s)

number_in-text_of : (v : ℕ) → v < int_limit → number_in (text_of v) ≡ some v
unfolding number_in
number_in-text_of v h =
    let back : atoi (text_of v) ≡ v = atoi-decimal v 0 [] (omega arith) refl in
    let small : ltb v int_limit ≡ true = ground arith in
    rw (has_null-append (decimal v), back, small) refl

read-text_of :
    (b : Access) (v : ℕ)
    → b.opened ≡ true
    → b.moved ≡ true
    → v < int_limit
    → read_expire_cnt b (text_of v) ≡ some v
unfolding read_expire_cnt
read-text_of b v o m h =
    let fits =
      take_of_length-le 25 (text_of v)
        (omega (arith, length-append (decimal v) (0 ∷ []), length-decimal 19 v (omega arith))) in
    rw (o, m, fits) (number_in-text_of v h)

-- If the file can be opened, written and read, then read_expire_cnt reads back what
-- write_expire_cnt has stored, whatever was there before, for each count that is an int of 32 bits.
pub read-write_expire_cnt :
    (a b : Access) (v : ℕ) (file : Bytes)
    → a.opened ≡ true
    → a.moved ≡ true
    → b.opened ≡ true
    → b.moved ≡ true
    → v < 2 ^ 31
    → read_expire_cnt b (write_expire_cnt a v file) ≡ some v
unfolding write_expire_cnt
read-write_expire_cnt a b v file ao am bo bm h = rw (ao, am) (read-text_of b v bo bm h)

-- The file can be opened, read and written.
abbrev pub fine : Accesses
fine =
    let a : Access = record { opened = true; moved = true } in
    record { read = a; reset = a; last = a }

reboots-reset_peer :
    (a : Access) (file : Bytes) (p : Process) → reboots (reset_peer a file p).effects ≡ 1
unfolding reset_peer
reboots-reset_peer a file p = elim (Bool-cases (ltb 0 p.child_pid)) [
  | inl e ↦ rw e refl
  | inr e ↦ rw e refl
]

-- One timer signal at the parent, when the file holds n.
timer_step :
    (w : World) (n : ℕ)
    → n + 1 < int_limit
    → w.file ≡ text_of n
    → (w' : World) × (d : Done) × (step w (timer fine) ≡ some (w', d))
      × (w'.file ≡ text_of (n + 1))
      × (w'.parent.already_reset ≡ (if is_due n w.parent then true else w.parent.already_reset))
      × (reboots d.by_parent ≡ (if is_due n w.parent then 1 else 0))
unfolding step sig_handler alarm_case count_on at_parent write_expire_cnt
timer_step w n h e =
    let back : read_expire_cnt fine.read w.file ≡ some n =
      rw e (read-text_of fine.read n refl refl (omega arith)) in
    let small : ltb (n + 1) int_limit ≡ true = ground arith in
    elim (Bool-cases (is_due n w.parent)) [
      | inl d ↦
          rw (back, small, d)
            (_, _, refl, refl, refl, reboots-reset_peer fine.reset w.file w.parent)
      | inr d ↦ rw (back, small, d) (_, _, refl, refl, refl, refl)
    ]

-- Whether `k` timer signals from a count of n bring a reset.
abbrev resets : Bool → ℕ → ℕ → ℕ
resets already n k =
    if not already && leb n peer_expire_cnt && ltb peer_expire_cnt (n + k) then 1 else 0

timers_from :
    (k n : ℕ) (m : Tally) (w : World)
    → n + k < int_limit
    → w.file ≡ text_of n
    → (w' : World) × (m' : Tally) × (run w m (replicate k (timer fine)) ≡ some (w', m'))
      × (w'.file ≡ text_of (n + k))
      × (m'.by_handler ≡ m.by_handler + resets w.parent.already_reset n k)
unfolding run is_due
timers_from zero n m w h e =
    let z : n + 0 ≡ n = omega arith in (w, m, refl, rw (z, e) refl, ground arith)
timers_from (suc k) n m w h e =
    let (v, d, went, file, flag, count) = timer_step w n (omega arith) e in
    let (w', m', ran, file', count') =
      timers_from k (n + 1)
        (record {
          by_handler = m.by_handler + reboots d.by_parent;
          by_servlet = m.by_servlet + reboots d.by_child;
        })
        v (omega arith) file in
    (w', m', rw (went, ran) refl, file' ∙ ap text_of (omega arith), ground arith)

-- Where the file can be opened, read and written, starting from a count n that it holds, k timer
-- signals in a row at a router whose parent has not reset the peer since it started leave a count of
-- n + k, and the handler resets the peer once if the count passes 30 on the way, and else not at
-- all, as long as n + k is an int of 32 bits.
pub timers-reset_once :
    (w : World) (n k : ℕ)
    → n + k < 2 ^ 31
    → w.file ≡ text_of n
    → w.parent.already_reset ≡ false
    → (w' : World) × (t : Tally) × (run w
          (record { by_handler = 0; by_servlet = 0 })
          (replicate k (timer fine))
        ≡ some (w', t))
      × (read_expire_cnt fine.read w'.file ≡ some (n + k))
      × (t.by_handler ≡ (if leb n peer_expire_cnt && ltb peer_expire_cnt (n + k) then 1 else 0))
timers-reset_once w n k h e f =
    let (w', t, ran, file, count) =
      timers_from k n (record { by_handler = 0; by_servlet = 0 }) w h e in
    (w', t, ran, rw file (read-text_of fine.read (n + k) refl refl h), ground arith)
