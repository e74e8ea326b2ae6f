-- ===== src/SelectSrvBetter/Loop.antt =====
-- The loop over the clients of C/select_srv_better.c: what it leaves of the table.
use network_pragramming.Prelude.{
  ℕ, zero, suc, ◌-◌, ◌≤◌, ◌<◌, ◌≡◌, refl, false, Option, none, some, [], ◌∷◌, Bytes, length, drop,
  arith, leb, Bool-cases, inl, inr,
}
use network_pragramming.Sys.{FdSet, fd_clr}
use network_pragramming.Slots.{Slots, used, held}
use network_pragramming.SelectSrvBetter.{
  Round, Table, read_client, clients, stored, recv_buf_size, untouched, join,
}

-- The slots and descriptors behind the loop, against those before it.
pub record Served (ss : Slots) (active : FdSet) (t : Table) : Type 0 where
  pub sized : length t.slots ≡ length ss
  pub fewer : (fd : ℕ) → held fd t.slots ≤ held fd ss
  pub kept : (fd : ℕ) → held fd t.slots ≡ held fd ss → t.active fd ≡ active fd
  pub dropped : (fd : ℕ) → held fd t.slots < held fd ss → t.active fd ≡ false
  pub above : (k : ℕ) → used (drop k t.slots) ≤ used (drop k ss)

Served-same : (ss : Slots) (active : FdSet) → Served ss active (untouched ss active)
Served-same ss active = record {
  sized = refl;
  fewer = λ fd. omega arith;
  kept = λ fd e. refl;
  dropped = λ fd l. absurd (omega arith);
  above = λ k. omega arith;
}

Served-keep :
    (slot : Option ℕ) (ss : Slots) (active : FdSet) (t u : Table)
    → t.slots ≡ slot ∷ []
    → Served ss active u
    → Served (slot ∷ ss) active (join t u)
Served-keep none ss active t u e v = rw e (record {
  sized = omega (arith, v.sized);
  fewer = v.fewer;
  kept = v.kept;
  dropped = v.dropped;
  above = elim [ zero ↦ v.above 0 | suc k ↦ v.above k ];
})
Served-keep (some sd) ss active t u e v = rw e (record {
  sized = omega (arith, v.sized);
  fewer = λ fd. ground (arith, v.fewer fd);
  kept = λ fd e'. v.kept fd (ground arith);
  dropped = λ fd l. v.dropped fd (ground arith);
  above = elim [ zero ↦ omega (arith, v.above 0) | suc k ↦ v.above k ];
})

Served-drop :
    (sd : ℕ) (ss : Slots) (active : FdSet) (t u : Table)
    → ((fd : ℕ) → held fd (some sd ∷ ss) ≤ 1)
    → t.slots ≡ none ∷ []
    → Served ss (fd_clr sd active) u
    → Served (some sd ∷ ss) active (join t u)
Served-drop sd ss active t u distinct e v = rw e (record {
  sized = omega (arith, v.sized);
  fewer = λ fd. ground (arith, v.fewer fd);
  kept = λ fd e'. ground (arith, v.kept fd, v.fewer fd, distinct fd);
  dropped = λ fd l. ground (arith, v.kept fd, v.fewer fd, v.dropped fd, distinct fd);
  above = elim [ zero ↦ omega (arith, v.above 0) | suc k ↦ v.above k ];
})

-- A read, in front of what serves the slots behind it.
Served-read :
    (sd : ℕ) (bytes : Bytes) (ss : Slots) (active : FdSet) (u : Table)
    → ((fd : ℕ) → held fd (some sd ∷ ss) ≤ 1)
    → Served ss (read_client sd active bytes).active u
    → Served (some sd ∷ ss) active (join (read_client sd active bytes) u)
unfolding read_client
Served-read sd [] ss active u distinct v =
    Served-drop sd ss active (read_client sd active []) u distinct refl v
Served-read sd (b ∷ bytes) ss active u distinct v =
    Served-keep (some sd) ss active (read_client sd active (b ∷ bytes)) u refl v

tail_distinct :
    (sd : ℕ) (ss : Slots) → ((fd : ℕ) → held fd (some sd ∷ ss) ≤ 1) → (fd : ℕ) → held fd ss ≤ 1
tail_distinct sd ss d fd = ground (arith, d fd)

-- A loop over distinct clients.
pub clients-Served :
    (r : Round) (rfds : FdSet) (left n : ℕ) (ss : Slots) (active : FdSet)
    → ((fd : ℕ) → held fd ss ≤ 1)
    → Served ss active (clients r rfds left n ss active)
unfolding clients
clients-Served r rfds zero n ss active d = Served-same ss active
clients-Served r rfds (suc left) n [] active d = Served-same [] active
clients-Served r rfds (suc left) n (none ∷ ss) active d =
    Served-keep none ss active (untouched (none ∷ []) active) _ refl
      (clients-Served r rfds left n ss active d)
clients-Served r rfds (suc left) n (some sd ∷ ss) active d =
    let b = stored (recv_buf_size - 1) (r.received sd) in
    let t = read_client sd active b in
    elim (Bool-cases (rfds sd)) [
      | inr off ↦ rw off (
          Served-keep (some sd) ss active (untouched (some sd ∷ []) active) _ refl
            (clients-Served r rfds left n ss active (tail_distinct sd ss d)))
      | inl on ↦ elim (Bool-cases (leb n 1)) [
        | inl last ↦ rw (on, last) (Served-read sd b ss active _ d (Served-same ss t.active))
        | inr more ↦
            rw (on, more)
              (Served-read sd b ss active _ d
                (clients-Served r rfds left (n - 1) ss t.active (tail_distinct sd ss d)))
      ]
    ]
