-- ===== src/SelectServer/Loop.antt =====
-- The loop over the clients of C/select_server.c: what it leaves of the table.
use network_pragramming.Prelude.{
  ℕ, suc, ◌+◌, ◌-◌, ◌≤◌, ◌<◌, ◌≡◌, ◌⊎◌, inl, inr, refl, ap, false, Option, none, some, [], ◌∷◌,
  length, arith, ltb, Bool-cases,
}
use network_pragramming.Sys.{Input, read_error, end_of_file, input, read_some, FdSet, fd_clr}
use network_pragramming.Sys.Rules.{Post, Post-bind, Post-skip, Post-imp}
use network_pragramming.Slots.{Slots, used, held}
use network_pragramming.SelectServer.{
  Turn, Table, Round, recv_client, echo_back, echo_text, client, clients, buf_size,
}

-- A turn leaves its slot, or drops the client that it holds.
abbrev Turned : Option ℕ → ℕ → FdSet → Turn → Type 0
Turned slot cnt active t =
    (t ≡ record { slot = slot; count = cnt; active = active })
    ⊎ ((sd : ℕ) × (slot ≡ some sd)
        × (t ≡ record { slot = none; count = cnt - 1; active = fd_clr sd active }))

recv_client_lem :
    (sd cnt : ℕ) (active : FdSet) (i : Input)
    → Post (Turned (some sd) cnt active) (recv_client sd cnt active i)
unfolding recv_client echo_back
recv_client_lem sd cnt active (read_error e) = inr (sd, refl, refl)
recv_client_lem sd cnt active end_of_file = inr (sd, refl, refl)
recv_client_lem sd cnt active (input bytes) =
    elim (Bool-cases (ltb (length (echo_text bytes)) 256)) [
      | inl fits ↦ rw fits (inl refl)
      | inr over ↦ rw over tt
    ]

client_lem :
    (r : Round) (rfds : FdSet) (slot : Option ℕ) (cnt : ℕ) (active : FdSet)
    → Post (Turned slot cnt active) (client r rfds slot cnt active)
unfolding client
client_lem r rfds none cnt active = inl refl
client_lem r rfds (some sd) cnt active = elim (Bool-cases (rfds sd)) [
  | inl e ↦ rw e (
      Post-skip (Turned (some sd) cnt active) (read_some sd (buf_size - 1) (r.received sd)) _
        (λ i. recv_client_lem sd cnt active i))
  | inr e ↦ rw e (inl refl)
]

pub client-count :
    (r : Round) (rfds : FdSet) (slot : Option ℕ) (cnt : ℕ) (active : FdSet)
    → Post (λ t. t.count ≤ cnt) (client r rfds slot cnt active)
client-count r rfds slot cnt active =
    Post-imp (Turned slot cnt active) (λ t. t.count ≤ cnt) (client r rfds slot cnt active)
      (client_lem r rfds slot cnt active) λ t w. lower t w
  where
    lower : (t : Turn) → Turned slot cnt active t → t.count ≤ cnt
    lower t (inl e) = omega (arith, ap (λ (x : Turn). x.count) e)
    lower t (inr (sd, here, e)) = omega (arith, ap (λ (x : Turn). x.count) e)

-- The table behind the loop, against the slots, the count and the descriptors before it.
pub record Served (ss : Slots) (cnt : ℕ) (active : FdSet) (t : Table) : Type 0 where
  pub sized : length t.slots ≡ length ss
  pub counted : t.count + used ss ≡ cnt + used t.slots
  pub fewer : (fd : ℕ) → held fd t.slots ≤ held fd ss
  pub kept : (fd : ℕ) → held fd t.slots ≡ held fd ss → t.active fd ≡ active fd
  pub dropped : (fd : ℕ) → held fd t.slots < held fd ss → t.active fd ≡ false

Served-same :
    (ss : Slots) (cnt : ℕ) (active : FdSet)
    → Served ss cnt active (record { slots = ss; count = cnt; active = active })
Served-same ss cnt active = record {
  sized = refl;
  counted = refl;
  fewer = λ fd. omega arith;
  kept = λ fd e. refl;
  dropped = λ fd l. absurd (omega arith);
}

Served-kept :
    (slot : Option ℕ) (ss : Slots) (cnt : ℕ) (active : FdSet) (u : Table)
    → Served ss cnt active u
    → Served (slot ∷ ss) cnt active (record u { slots = slot ∷ u.slots })
Served-kept none ss cnt active u v = record {
  sized = omega (arith, v.sized);
  counted = v.counted;
  fewer = v.fewer;
  kept = v.kept;
  dropped = v.dropped;
}
Served-kept (some sd) ss cnt active u v = record {
  sized = omega (arith, v.sized);
  counted = omega (arith, v.counted);
  fewer = λ fd. ground (arith, v.fewer fd);
  kept = λ fd e. v.kept fd (ground arith);
  dropped = λ fd l. v.dropped fd (ground arith);
}

Served-dropped :
    (sd : ℕ) (ss : Slots) (cnt : ℕ) (active : FdSet) (u : Table)
    → ((fd : ℕ) → held fd (some sd ∷ ss) ≤ 1)
    → 0 < cnt
    → Served ss (cnt - 1) (fd_clr sd active) u
    → Served (some sd ∷ ss) cnt active (record u { slots = none ∷ u.slots })
Served-dropped sd ss cnt active u distinct pos v = record {
  sized = omega (arith, v.sized);
  counted = omega (arith, v.counted);
  fewer = λ fd. ground (arith, v.fewer fd);
  kept = λ fd e. ground (arith, v.kept fd, v.fewer fd, distinct fd);
  dropped = λ fd l. ground (arith, v.kept fd, v.fewer fd, v.dropped fd, distinct fd);
}

Served-cons :
    (slot : Option ℕ) (ss : Slots) (cnt : ℕ) (active : FdSet) (t : Turn) (u : Table)
    → ((fd : ℕ) → held fd (slot ∷ ss) ≤ 1)
    → 0 < cnt
    → Turned slot cnt active t
    → Served ss t.count t.active u
    → Served (slot ∷ ss) cnt active (record u { slots = t.slot ∷ u.slots })
Served-cons slot ss cnt active t u distinct pos (inl e) = rw e (Served-kept slot ss cnt active u)
Served-cons slot ss cnt active t u distinct pos (inr (sd, here, e)) =
    rw (e, here) (Served-dropped sd ss cnt active u (rw here at distinct) pos)

tail_distinct :
    (slot : Option ℕ) (ss : Slots)
    → ((fd : ℕ) → held fd (slot ∷ ss) ≤ 1)
    → (fd : ℕ) → held fd ss ≤ 1
tail_distinct none ss d fd = d fd
tail_distinct (some sd) ss d fd = ground (arith, d fd)

-- A loop over distinct clients.
pub clients-Served :
    (r : Round) (rfds : FdSet) (i : ℕ) (ss : Slots) (cnt : ℕ) (active : FdSet)
    → ((fd : ℕ) → held fd ss ≤ 1)
    → Post (Served ss cnt active) (clients r rfds i ss cnt active)
unfolding clients
clients-Served r rfds i [] cnt active distinct = Served-same [] cnt active
clients-Served r rfds i (slot ∷ ss) cnt active distinct = elim (Bool-cases (ltb i cnt)) [
  | inr e ↦ rw e (Served-same (slot ∷ ss) cnt active)
  | inl e ↦ rw e (
      Post-bind (Turned slot cnt active) (Served (slot ∷ ss) cnt active)
        (client r rfds slot cnt active) _ (client_lem r rfds slot cnt active)
        λ t w.
          Post-bind (Served ss t.count t.active) (Served (slot ∷ ss) cnt active)
            (clients r rfds (suc i) ss t.count t.active) _
            (clients-Served r rfds (suc i) ss t.count t.active (tail_distinct slot ss distinct))
            λ u v. Served-cons slot ss cnt active t u distinct (ground arith) w v)
]
