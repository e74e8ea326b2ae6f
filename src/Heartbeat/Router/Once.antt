-- ===== src/Heartbeat/Router/Once.antt =====
-- C/heartbeat_router.c: a router that has reset its peer, where SIGURG clears `already_reset` in a
-- child only.
use network_pragramming.Prelude.{
  ℕ, suc, ◌+◌, ◌≤◌, ◌≡◌, refl, true, Bool-cases, inl, inr, Option, none, some, List, [], ◌∷◌,
  get_elem?, arith, ltb, ◌==◌,
}
use network_pragramming.Heartbeat.Router.{
  Accesses, Process, World, Done, Event, Tally, timer, connection, fork_failed, urgent, hangup,
  is_due, read_expire_cnt, alarm_case, count_on, sig_handler, at_parent, at_child, child_urgent,
  child_exit, step, run, next, counted, reboots, int_limit,
}

-- How often a child's connection ends.
abbrev pub hangups : List Event → ℕ
hangups [] = 0
hangups (hangup i ∷ es) = suc (hangups es)
hangups (e ∷ es) = hangups es

-- What an event leaves, if its behaviour is defined: the flag of the parent is set, its handler has
-- not reset the peer, and a servlet has done so `k` times at most.
abbrev Held : ℕ → Option (World × Done) → Type 0
Held k none = Unit
Held k (some (w, d)) =
    (w.parent.already_reset ≡ true) × (reboots d.by_parent ≡ 0) × (reboots d.by_child ≤ k)

alarm-Held :
    (w : World) (x : Accesses) (o : Option ℕ)
    → w.parent.already_reset ≡ true
    → Held 0 (at_parent w [] (alarm_case x w.file w.parent o))
unfolding alarm_case count_on at_parent is_due
alarm-Held w x none r = tt
alarm-Held w x (some n) r = elim (Bool-cases (ltb (n + 1) int_limit)) [
  | inl fits ↦ rw fits (ground arith)
  | inr over ↦ rw over tt
]

child_urgent-Held :
    (w : World) (i c : ℕ) (x : Accesses) (o : Option Process)
    → w.parent.already_reset ≡ true
    → Held 0 (child_urgent w i c x o)
unfolding child_urgent sig_handler at_child
child_urgent-Held w i c x none r = (r, refl, omega arith)
child_urgent-Held w i c x (some p) r = elim (Bool-cases (c == b'c')) [
  | inl e ↦ rw e (r, refl, omega arith)
  | inr e ↦ rw e (r, refl, omega arith)
]

child_exit-Held :
    (w : World) (i : ℕ) (o : Option Process)
    → w.parent.already_reset ≡ true
    → Held 1 (child_exit w i o)
unfolding child_exit sig_handler at_parent
child_exit-Held w i none r = (r, refl, omega arith)
child_exit-Held w i (some p) r = (r, refl, omega arith)

step-Held :
    (w : World) (e : Event) → w.parent.already_reset ≡ true → Held (hangups (e ∷ [])) (step w e)
unfolding step sig_handler
step-Held w (timer x) r = alarm-Held w x (read_expire_cnt x.read w.file) r
step-Held w (connection pid) r = (r, refl, omega arith)
step-Held w fork_failed r = (r, refl, omega arith)
step-Held w (urgent i c x) r = child_urgent-Held w i c x (get_elem? w.children i) r
step-Held w (hangup i) r = child_exit-Held w i (get_elem? w.children i) r

-- What a run leaves, if its behaviour is defined.
abbrev pub Stays : Tally → ℕ → Option (World × Tally) → Type 0
Stays n k none = Unit
Stays n k (some (w, m)) =
    (m.by_handler ≡ n.by_handler)
    × (m.by_servlet ≤ n.by_servlet + k)
    × (w.parent.already_reset ≡ true)

Stays-less :
    (n m : Tally) (j k : ℕ) (o : Option (World × Tally))
    → m.by_handler ≡ n.by_handler
    → m.by_servlet + j ≤ n.by_servlet + k
    → Stays m j o
    → Stays n k o
Stays-less n m j k none e l s = tt
Stays-less n m j k (some (w, t)) e l (same, few, flag) = (omega arith, omega arith, flag)

hangups-cons : (e : Event) (es : List Event) → hangups (e ∷ es) ≡ hangups (e ∷ []) + hangups es
hangups-cons (hangup i) es = omega arith
hangups-cons _ es = omega arith

-- Once the parent of a router has reset its peer, its handler never does so again, whatever the
-- events are and whether or not the file can be used, as long as no behaviour is undefined: not after
-- new connections, and not after heartbeats at the children. Only the servlets of children still
-- reset the peer, at most once for each connection that ends.
pub run-never_again :
    (w : World) (n : Tally) (es : List Event)
    → w.parent.already_reset ≡ true
    → Stays n (hangups es) (run w n es)
unfolding run
run-never_again w n [] r = (refl, omega arith, r)
run-never_again w n (e ∷ es) r =
    follows (step w e) (step-Held w e r) λ w' n' r'. run-never_again w' n' es r'
  where
    follows :
        (o : Option (World × Done))
        → Held (hangups (e ∷ [])) o
        → ((w' : World) (n' : Tally)
            → w'.parent.already_reset ≡ true
            → Stays n' (hangups es) (run w' n' es))
        → Stays n (hangups (e ∷ es)) (next n o (λ w' n'. run w' n' es))
    follows none h later = tt
    follows (some (w', d)) (flag, still, few) later =
        Stays-less n (counted n d) (hangups es) (hangups (e ∷ es)) (run w' (counted n d) es)
          (omega arith) (omega (arith, hangups-cons e es)) (later w' (counted n d) flag)
