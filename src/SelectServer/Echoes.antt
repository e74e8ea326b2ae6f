-- ===== src/SelectServer/Echoes.antt =====
-- C/select_server.c: what the server writes, over whole runs.
use network_pragramming.Prelude.{
  ℕ, suc, ◌-◌, ◌≤◌, ◌≡◌, ◌==◌, Bool, true, false, length, take, arith, ◌⊎◌, refl, Option, none,
  some, List, [], ◌∷◌, ◌++◌, Bytes, ltb, Bool-cases, inl, inr,
}
use network_pragramming.Sys.{
  is_eintr, read_some, Answer, failed, gave, Call, Prog, returns, exits, waits, after, call_or_exit,
  exit_minus_one, ◌>>=◌, FdSet, fd_ready,
}
use network_pragramming.Slots.{Slots}
use network_pragramming.SelectServer.{
  Server, Round, Selected, timeout, ready, Setup, buf_size, echo_text, accept_msg, refuse_msg,
  recv_client, echo_back, undefined, client, clients, add_client, serve_clients, new_connection,
  handle_ready, handle_selected, round, setup, rounds, select_server, max_clients_num,
}

-- A trace in which each read is answered before the next call but close: by one write to the same
-- descriptor, with the echo of what the read has stored. Any other write greets or refuses. Only
-- where `overrun` says so, the last read may stay without an answer, and then the echo of what it
-- has stored does not fit into send_buf. `Option` has a read that has not been answered yet, with
-- what it has stored.
abbrev pub Echoes : Bool → Option (ℕ × Bytes) → List Call → Type 0
Echoes overrun none [] = Unit
Echoes overrun (some r) [] = (overrun ≡ true) × (buf_size ≤ length (echo_text r.1))
Echoes overrun none (Call.read fd n ∷ cs) = Echoes overrun (some (fd, [])) cs
Echoes overrun none (Call.write fd text ∷ cs) =
    ((text ≡ accept_msg) ⊎ (text ≡ refuse_msg)) × Echoes overrun none cs
Echoes overrun none (c ∷ cs) = Echoes overrun none cs
Echoes overrun (some r) (Call.received fd bytes ∷ cs) =
    (fd ≡ r.0) × Echoes overrun (some (fd, bytes)) cs
Echoes overrun (some r) (Call.close fd ∷ cs) = (fd ≡ r.0) × Echoes overrun (some r) cs
Echoes overrun (some r) (Call.write fd text ∷ cs) =
    (fd ≡ r.0) × (text ≡ echo_text r.1) × Echoes overrun none cs
Echoes overrun (some r) (c ∷ cs) = ⊥

Echoes-append :
    (o : Bool) (r : Option (ℕ × Bytes)) (cs ds : List Call)
    → Echoes false r cs
    → Echoes o none ds
    → Echoes o r (cs ++ ds)
Echoes-append o none [] ds h k = k
Echoes-append o (some r) [] ds (e, h) k = ground arith
Echoes-append o none (Call.read fd n ∷ cs) ds h k = Echoes-append o (some (fd, [])) cs ds h k
Echoes-append o none (Call.write fd text ∷ cs) ds (e, h) k = (e, Echoes-append o none cs ds h k)
Echoes-append o none (_ ∷ cs) ds h k = Echoes-append o none cs ds h k
Echoes-append o (some r) (Call.received fd bytes ∷ cs) ds (e, h) k =
    (e, Echoes-append o (some (fd, bytes)) cs ds h k)
Echoes-append o (some r) (Call.close fd ∷ cs) ds (e, h) k = (e, Echoes-append o (some r) cs ds h k)
Echoes-append o (some r) (Call.write fd text ∷ cs) ds (e, e', h) k =
    (e, e', Echoes-append o none cs ds h k)
Echoes-append o (some r) (_ ∷ cs) ds h k = absurd h

-- A program whose whole trace is such, where only the end of one that has written behind an array
-- may have left a read without an answer.
abbrev pub Polite : {A : Type 0} → Prog A → Type 0
Polite (returns cs a) = Echoes false none cs
Polite (exits cs n) = Echoes (n == undefined) none cs
Polite (waits cs) = Echoes false none cs

Polite-after :
    {A : Type 0} (cs : List Call) (p : Prog A)
    → Echoes false none cs
    → Polite p
    → Polite (after cs p)
Polite-after cs (returns ds a) h k = Echoes-append false none cs ds h k
Polite-after cs (exits ds n) h k = Echoes-append (n == undefined) none cs ds h k
Polite-after cs (waits ds) h k = Echoes-append false none cs ds h k

Polite-bind :
    {A B : Type 0} (m : Prog A) (f : A → Prog B)
    → Polite m
    → ((a : A) → Polite (f a))
    → Polite (m >>= f)
Polite-bind (returns cs a) f h k = Polite-after cs (f a) h (k a)
Polite-bind (exits cs n) f h k = h
Polite-bind (waits cs) f h k = h

recv_client-Polite :
    (sd cnt : ℕ) (active : FdSet) (a : Answer Bytes)
    → Polite (read_some sd (buf_size - 1) a >>= recv_client sd cnt active)
unfolding recv_client echo_back
recv_client-Polite sd cnt active (failed e) = (refl, (refl, refl, tt))
recv_client-Polite sd cnt active (gave []) = (refl, (refl, (refl, refl, tt)))
recv_client-Polite sd cnt active (gave (b ∷ bytes)) =
    elim (Bool-cases (ltb (length (echo_text (b ∷ take 254 bytes))) buf_size)) [
      | inl fits ↦ rw fits (refl, (refl, refl, tt))
      | inr over ↦ rw over (refl, (refl, ground arith))
    ]

client-Polite :
    (r : Round) (rfds : FdSet) (slot : Option ℕ) (cnt : ℕ) (active : FdSet)
    → Polite (client r rfds slot cnt active)
unfolding client
client-Polite r rfds none cnt active = tt
client-Polite r rfds (some sd) cnt active = elim (Bool-cases (rfds sd)) [
  | inl on ↦ rw on (recv_client-Polite sd cnt active (r.received sd))
  | inr off ↦ rw off tt
]

clients-Polite :
    (r : Round) (rfds : FdSet) (i : ℕ) (ss : Slots) (cnt : ℕ) (active : FdSet)
    → Polite (clients r rfds i ss cnt active)
unfolding clients
clients-Polite r rfds i [] cnt active = tt
clients-Polite r rfds i (slot ∷ ss) cnt active = elim (Bool-cases (ltb i cnt)) [
  | inl below ↦ rw below (
      Polite-bind (client r rfds slot cnt active) _ (client-Polite r rfds slot cnt active) (λ t.
        Polite-bind (clients r rfds (suc i) ss t.count t.active) _
          (clients-Polite r rfds (suc i) ss t.count t.active) (λ u. tt)))
  | inr above ↦ rw above tt
]

serve_clients-Polite : (r : Round) (rfds : FdSet) (s : Server) → Polite (serve_clients r rfds s)
unfolding serve_clients
serve_clients-Polite r rfds s =
    Polite-bind (clients r rfds 0 s.cli_socks s.cur_conn_cnt s.active_fds) _
      (clients-Polite r rfds 0 s.cli_socks s.cur_conn_cnt s.active_fds) (λ t. tt)

new_connection-Polite :
    (r : Round) (rfds : FdSet) (new : ℕ) (s : Server) → Polite (new_connection r rfds new s)
unfolding new_connection add_client
new_connection-Polite r rfds new s = elim (Bool-cases (ltb (max_clients_num - 1) s.cur_conn_cnt)) [
  | inl full ↦ rw full (inr refl, tt)
  | inr room ↦ rw room (
      Polite-bind (add_client new s) (serve_clients r rfds) (inl refl, tt)
        (serve_clients-Polite r rfds))
]

accepted-Polite :
    (r : Round) (rfds : FdSet) (a : Answer ℕ) (s : Server)
    → Polite (
        call_or_exit (Call.accept s.master_sock) exit_minus_one a >>= λ new.
        new_connection r rfds new s)
accepted-Polite r rfds (failed e) s = tt
accepted-Polite r rfds (gave new) s =
    Polite-after (Call.accept s.master_sock ∷ []) (new_connection r rfds new s) tt
      (new_connection-Polite r rfds new s)

handle_ready-Polite : (r : Round) (rfds : FdSet) (s : Server) → Polite (handle_ready r rfds s)
unfolding handle_ready
handle_ready-Polite r rfds s = elim (Bool-cases (rfds s.master_sock)) [
  | inl knock ↦ rw knock (accepted-Polite r rfds r.accepted s)
  | inr quiet ↦ rw quiet (serve_clients-Polite r rfds s)
]

handle_selected-Polite :
    (r : Round) (s : Server) (a : Answer Selected) → Polite (handle_selected r s a)
unfolding handle_selected
handle_selected-Polite r s (failed e) = elim (Bool-cases (is_eintr e)) [
  | inl i ↦ rw i tt
  | inr i ↦ rw i tt
]
handle_selected-Polite r s (gave timeout) = tt
handle_selected-Polite r s (gave (ready fds)) = handle_ready-Polite r (fd_ready s.active_fds fds) s

rounds-Polite : (s : Server) (rs : List Round) → Polite (rounds s rs)
unfolding rounds round
rounds-Polite s [] = tt
rounds-Polite s (r ∷ rs) =
    Polite-bind (round s r) (λ s'. rounds s' rs)
      (Polite-after (Call.select ∷ []) (handle_selected r s r.selected) tt
        (handle_selected-Polite r s r.selected))
      (λ s'. rounds-Polite s' rs)

call_or_exit-Polite :
    {A : Type 0} (c : Call) (a : Answer A)
    → Echoes false none (c ∷ [])
    → Polite (call_or_exit c exit_minus_one a)
call_or_exit-Polite c (failed e) h = h
call_or_exit-Polite c (gave a) h = h

setup-Polite : (a : Setup) → Polite (setup a)
unfolding setup
setup-Polite a =
    Polite-bind (call_or_exit Call.socket exit_minus_one a.socket) _
      (call_or_exit-Polite Call.socket a.socket tt)
      (λ fd.
        Polite-bind (call_or_exit (Call.set_reuseaddr fd) exit_minus_one a.reuse) _
          (call_or_exit-Polite (Call.set_reuseaddr fd) a.reuse tt)
          (λ u.
            Polite-bind (call_or_exit (Call.bind fd) exit_minus_one a.bound) _
              (call_or_exit-Polite (Call.bind fd) a.bound tt)
              (λ u'.
                Polite-bind (call_or_exit (Call.listen fd 5) exit_minus_one a.listening) _
                  (call_or_exit-Polite (Call.listen fd 5) a.listening tt) (λ u''. tt))))

-- However its calls are answered, over a whole run the server answers each read of a client before
-- it calls anything else but close, with one write to that client: the echo of what the read has
-- stored, also after the end of the file or an error, when the client is closed already. It writes
-- nothing else but the greeting and the refusal. Only the last read can stay without an answer, and
-- only if the echo of what it has stored, with its null byte, is too long for send_buf: then sprintf
-- writes behind that array, which ends the run.
pub select_server-Echoes : (a : Setup) (rs : List Round) → Polite (select_server a rs)
unfolding select_server
select_server-Echoes a rs =
    Polite-bind (setup a) (λ s. rounds s rs) (setup-Polite a) (λ s. rounds-Polite s rs)
