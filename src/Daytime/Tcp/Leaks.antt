-- ===== src/Daytime/Tcp/Leaks.antt =====
-- C/daytime_tcp_server.c: the connections that its loop closes, and those that it leaves open.
use network_pragramming.Prelude.{
  ℕ, ◌+◌, ◌≡◌, refl, List, [], ◌∷◌, Bytes, if◌then◌else◌, Bool-cases, inl, inr,
}
use network_pragramming.Sys.{is_eintr, Answer, failed, gave, Call, waits, ◌>>=◌, write_some}
use network_pragramming.Sys.Trace.{closes, closes-append}
use network_pragramming.Sys.Closing.{Leaves, Leaves-after, Left, Left-bind}
use network_pragramming.Daytime.Tcp.{
  Family, Round, time_text, write_case, serve_family, serve_accepted, serve_round, serve_rounds,
}

-- How many rounds get a connection.
abbrev connection : Answer (ℕ × Family) → ℕ
connection (failed e) = 0
connection (gave c) = 1

abbrev pub connections : List Round → ℕ
connections [] = 0
connections (r ∷ rs) = connection r.accepted + connections rs

-- A write that a signal interrupts.
abbrev interrupted : Answer ℕ → ℕ
interrupted (failed e) = if is_eintr e then 1 else 0
interrupted (gave n) = 0

-- A connection from a family that the server does not know, or whose answer is interrupted.
abbrev unserved : Answer (ℕ × Family) → Answer ℕ → ℕ
unserved (failed e) w = 0
unserved (gave (fd, Family.unknown)) w = 1
unserved (gave (fd, Family.inet)) w = interrupted w
unserved (gave (fd, Family.inet6)) w = interrupted w

abbrev pub leaks : List Round → ℕ
leaks [] = 0
leaks (r ∷ rs) = unserved r.accepted r.written + leaks rs

write_case-Leaves :
    (fd : ℕ) (bytes : Bytes) (w : Answer ℕ)
    → Leaves closes (interrupted w) 1 (write_some fd bytes w >>= λ r. write_case fd r)
unfolding write_case
write_case-Leaves fd bytes (gave n) = refl
write_case-Leaves fd bytes (failed e) = elim (Bool-cases (is_eintr e)) [
  | inl i ↦ rw i refl
  | inr i ↦ rw i tt
]

serve_accepted-Leaves :
    (r : Round) (a : Answer (ℕ × Family))
    → Leaves closes (unserved a r.written) (connection a) (serve_accepted r a)
unfolding serve_accepted serve_family
serve_accepted-Leaves r (failed e) = elim (Bool-cases (is_eintr e)) [
  | inl i ↦ rw i refl
  | inr i ↦ rw i tt
]
serve_accepted-Leaves r (gave (fd, Family.unknown)) = refl
serve_accepted-Leaves r (gave (fd, Family.inet)) = write_case-Leaves fd (time_text r.now) r.written
serve_accepted-Leaves r (gave (fd, Family.inet6)) = write_case-Leaves fd (time_text r.now) r.written

serve_rounds-Left :
    (listenfd : ℕ) (rs : List Round)
    → Left closes (leaks rs) (connections rs) (serve_rounds listenfd rs)
unfolding serve_rounds serve_round
serve_rounds-Left fd [] = refl
serve_rounds-Left fd (r ∷ rs) =
    Left-bind closes closes-append (unserved r.accepted r.written) (leaks rs)
      (connection r.accepted) (connections rs) (serve_round fd r) (serve_rounds fd rs)
      (Leaves-after closes closes-append (unserved r.accepted r.written) (connection r.accepted)
        (Call.accept fd ∷ []) (serve_accepted r r.accepted) refl
        (serve_accepted-Leaves r r.accepted))
      (serve_rounds-Left fd rs)

-- While the server has not exited, the connections that it has accepted are as many as those that
-- it has closed together with those from an unknown family and those whose write a signal has
-- interrupted.
pub serve_rounds-closes :
    (listenfd : ℕ) (rs : List Round) (cs : List Call)
    → serve_rounds listenfd rs ≡ waits cs
    → connections rs ≡ closes cs + leaks rs
serve_rounds-closes fd rs cs e = rw e at (serve_rounds-Left fd rs)
