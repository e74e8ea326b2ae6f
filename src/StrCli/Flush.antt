-- ===== src/StrCli/Flush.antt =====
-- str_cli behind the end of stdin: rounds in which the socket takes what is left.
pub mod Ends
use network_pragramming.Prelude.{
  ℕ, suc, ◌+◌, ◌-◌, ◌≤◌, ◌<◌, ◌≡◌, refl, true, false, not, ◌&&◌, Bool, Option, none, some, List, [],
  ◌∷◌, ◌++◌, Bytes, length, drop, take, min, arith, ltb, ◌==◌, if◌then◌else◌, Bool-cases, inl, inr,
  length-drop, ◌∙◌,
}
use network_pragramming.Sys.{
  is_eagain, Input, read_error, end_of_file, input, input_cases, read_some, write_some, Answer,
  failed, gave, Call, Prog, returns, after, ◌>>=◌, ◌>>◌,
}
use network_pragramming.StrCli.{
  State, Sets, Round, Buffer, max_size, room, pending, backlog, is_drained, prepare, select_sets,
  read_stdin, sock_input, read_sock, stdout_written, write_stdout, sock_written, write_sock,
  write_both, advance, shutdown_if, round, stdout,
}

-- An answer of read on the socket that is no end of the file and no error but EAGAIN.
abbrev pub IsMore : Answer Bytes → Type 0
IsMore (failed e) = is_eagain e ≡ true
IsMore (gave []) = ⊥
IsMore (gave (b ∷ bytes)) = Unit

-- An answer of write that is no error but EAGAIN.
abbrev pub IsFine : Answer ℕ → Type 0
IsFine (failed e) = is_eagain e ≡ true
IsFine (gave n) = Unit

-- A round in which the socket is ready and takes at least one byte, if any are left.
pub record Takes (r : Round) : Type 0 where
  pub sets : Sets
  pub selected : r.ready ≡ gave sets
  pub writable : sets.w_sock ≡ true
  pub more : ℕ
  pub taken : r.sock_write ≡ gave (suc more)
  pub goes_on : IsMore r.sock_read
  pub shows : IsFine r.stdout_write

-- A phase that returns and leaves `to`, stdineof and the readiness of the socket alone.
abbrev Keeps : State → Sets → Prog (Option (State × Sets)) → Type 0
Keeps s q p =
    (cs : List Call) × (t : State) × (q' : Sets) × (p ≡ returns cs (some (t, q')))
    × (t.to ≡ s.to)
    × (t.stdineof ≡ s.stdineof)
    × (q'.w_sock ≡ q.w_sock)

sock_input-Keeps :
    (sock n : ℕ) (s : State) (q : Sets) (a : Answer Bytes)
    → IsMore a
    → Keeps s q (read_some sock (suc n) a >>= sock_input s q)
unfolding sock_input
sock_input-Keeps sock n s q (failed e) h =
    (Call.read sock (suc n) ∷ [], s, q, rw h refl, refl, refl, refl)
sock_input-Keeps sock n s q (gave []) h = absurd h
sock_input-Keeps sock n s q (gave (b ∷ bytes)) h = (_, _, _, refl, refl, refl, refl)

if-Keeps :
    (s : State) (q : Sets) (b : Bool) (p p' : Prog (Option (State × Sets)))
    → (b ≡ true → Keeps s q p)
    → Keeps s q p'
    → Keeps s q (if b then p else p')
if-Keeps s q true p p' h k = h refl
if-Keeps s q false p p' h k = k

read_sock-Keeps :
    (sock : ℕ) (s : State) (q : Sets) (a : Answer Bytes)
    → IsMore a
    → (q.r_sock ≡ true → length s.fr.stored < max_size)
    → Keeps s q (read_sock sock s q a)
unfolding read_sock
read_sock-Keeps sock s q a h fits =
    if-Keeps s q q.r_sock (read_some sock (room s.fr) a >>= sock_input s q)
      (returns [] (some (s, q)))
      (λ on.
        let some_room : room s.fr ≡ suc (room s.fr - 1) = ground (arith, fits on) in
        rw some_room (sock_input-Keeps sock (room s.fr - 1) s q a h))
      ([], s, q, refl, refl, refl, refl)

-- A write that returns and leaves `to` and stdineof alone.
abbrev Leaves : State → Prog State → Type 0
Leaves s p =
    (cs : List Call) × (t : State) × (p ≡ returns cs t) × (t.to ≡ s.to) × (t.stdineof ≡ s.stdineof)

write_stdout-Leaves :
    (s : State) (q : Sets) (a : Answer ℕ) → IsFine a → Leaves s (write_stdout s q a)
unfolding write_stdout stdout_written
write_stdout-Leaves s q (failed e) h = elim (Bool-cases (q.w_stdout && ltb 0 (backlog s.fr))) [
  | inl on ↦ rw (on, h) (Call.write stdout (pending s.fr) ∷ [], s, refl, refl, refl)
  | inr off ↦ rw off ([], s, refl, refl, refl)
]
write_stdout-Leaves s q (gave n) h = elim (Bool-cases (q.w_stdout && ltb 0 (backlog s.fr))) [
  | inl on ↦ rw on (_, _, refl, refl, refl)
  | inr off ↦ rw off ([], s, refl, refl, refl)
]

backlog-advance :
    (b : Buffer) (k : ℕ) → 1 ≤ k → k ≤ backlog b → backlog (advance b k) + 1 ≤ backlog b
unfolding advance
backlog-advance b k h h' = ground arith

-- A write to the socket that returns, with a smaller backlog if there was any.
abbrev Drains : State → Prog State → Type 0
Drains s p =
    (cs : List Call) × (t : State) × (p ≡ returns cs t)
    × (t.stdineof ≡ s.stdineof)
    × (backlog t.to ≤ backlog s.to - 1)

sock_written-Drains :
    (sock n : ℕ) (s : State)
    → s.to.out ≤ length s.to.stored
    → 0 < backlog s.to
    → Drains s (write_some sock (pending s.to) (gave (suc n)) >>= sock_written sock s)
unfolding sock_written shutdown_if
sock_written-Drains sock n s ordered some_left =
    let k = min (suc n) (length (pending s.to)) in
    let left : length (pending s.to) ≡ backlog s.to = length-drop s.to.out s.to.stored in
    let less = backlog-advance s.to k (omega (arith, left)) (omega (arith, left)) in
    elim (Bool-cases (is_drained (record (s.to) { out = s.to.out + k }) && s.stdineof)) [
      | inl e ↦ rw e (
        Call.write sock (pending s.to)
            ∷ Call.accepted sock (take k (pending s.to))
            ∷ Call.shutdown_wr sock
            ∷ [],
        record s { to = advance s.to k },
        refl,
        refl,
        omega (arith, less),
      )
      | inr e ↦ rw e (
        Call.write sock (pending s.to) ∷ Call.accepted sock (take k (pending s.to)) ∷ [],
        record s { to = advance s.to k },
        refl,
        refl,
        omega (arith, less),
      )
    ]

if-Drains :
    (s : State) (b : Bool) (p p' : Prog State)
    → (b ≡ true → Drains s p)
    → (b ≡ false → Drains s p')
    → Drains s (if b then p else p')
if-Drains s true p p' h k = h refl
if-Drains s false p p' h k = k refl

write_sock-Drains :
    (sock n : ℕ) (s : State) (q : Sets)
    → s.to.out ≤ length s.to.stored
    → (0 < backlog s.to → q.w_sock ≡ true)
    → Drains s (write_sock sock s q (gave (suc n)))
unfolding write_sock
write_sock-Drains sock n s q ordered writable =
    if-Drains s (q.w_sock && ltb 0 (backlog s.to))
      (write_some sock (pending s.to) (gave (suc n)) >>= sock_written sock s) (returns [] s)
      (λ on. sock_written-Drains sock n s ordered (ground (arith, on)))
      (λ off. ([], s, refl, refl, ground (arith, off, writable)))

write_both-Drains :
    (sock n : ℕ) (r : Round) (s : State) (q : Sets)
    → r.sock_write ≡ gave (suc n)
    → IsFine r.stdout_write
    → s.to.out ≤ length s.to.stored
    → (0 < backlog s.to → q.w_sock ≡ true)
    → (cs : List Call) × (t : State) × (write_both sock r (some (s, q)) ≡ returns cs (some t))
      × (t.stdineof ≡ s.stdineof)
      × (backlog t.to ≤ backlog s.to - 1)
unfolding write_both
write_both-Drains sock n r s q taken fine ordered writable =
    let (cs, s', e, same, eof) = write_stdout-Leaves s q r.stdout_write fine in
    let (ds, t, e', eof', less) =
      write_sock-Drains sock n s' q (rw same ordered) (rw same writable) in
    (cs ++ (ds ++ []), t, rw (e, taken, e') refl, ground (arith, eof, eof'), rw same at less)

if-off : {A : Type 0} (b : Bool) (x y : A) → b ≡ false → (if b then x else y) ≡ y
if-off true x y h = cc
if-off false x y h = refl

stdin_off :
    (sock : ℕ) (s : State) (q : Sets) (a : Answer Bytes)
    → q.r_stdin ≡ false
    → read_stdin sock s q a ≡ returns [] (s, q)
unfolding read_stdin
stdin_off sock s q a h = if-off q.r_stdin _ (returns [] (s, q)) h

-- The sets behind select: stdin is not watched any more, a read from the socket has room, and the
-- socket is ready if something is left for it.
record Watched (s : State) (q : Sets) : Type 0 where
  off : q.r_stdin ≡ false
  fits : q.r_sock ≡ true → length s.fr.stored < max_size
  writable : 0 < backlog s.to → q.w_sock ≡ true

selected-Watched :
    (s : State) (a : Answer Sets) (q : Sets)
    → a ≡ gave q
    → q.w_sock ≡ true
    → s.stdineof ≡ true
    → Watched s (select_sets (prepare s) a)
unfolding prepare select_sets
selected-Watched s (failed e) q h ready eof = absurd (cc h)
selected-Watched s (gave a) q h ready eof = record {
  off = ground (arith, eof);
  fits = λ on. ground (arith, on);
  writable = λ left. ground (arith, left, h, ready);
}

-- A round in which the socket takes something leaves less to send.
pub round-Takes :
    (sock : ℕ) (s : State) (r : Round)
    → Takes r
    → s.stdineof ≡ true
    → s.to.out ≤ length s.to.stored
    → (cs : List Call) × (t : State) × (round sock s r ≡ returns cs (some t))
      × (t.stdineof ≡ true)
      × (backlog t.to ≤ backlog s.to - 1)
unfolding round
round-Takes sock s r h eof ordered =
    let q = select_sets (prepare s) r.ready in
    let w = selected-Watched s r.ready h.sets h.selected h.writable eof in
    let (cs, s', q', e, same, same_eof, same_w) =
      read_sock-Keeps sock s q r.sock_read h.goes_on w.fits in
    let (ds, t, e', eof', less) =
      write_both-Drains sock h.more r s' q' h.taken h.shows (rw same ordered)
        (rw (same, same_w) w.writable) in
    (
      Call.select ∷ (cs ++ ds),
      t,
      rw (stdin_off sock s q r.stdin_read w.off, e, e') refl,
      eof' ∙ same_eof ∙ eof,
      rw same at less,
    )
