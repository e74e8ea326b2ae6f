-- ===== src/StrCli/Invariant/Writes.antt =====
-- The invariant of str_cli over its writes to stdout and to the socket.
use network_pragramming.Prelude.{
  ℕ, ◌+◌, ◌≤◌, ◌<◌, refl, ◌&&◌, List, [], ◌∷◌, Bytes, length, take, min, arith, ltb, append-nil,
  Bool-cases, inl, inr, length-drop,
}
use network_pragramming.Sys.{is_eagain, write_some, ◌>>=◌, after, Answer, failed, gave, Call}
use network_pragramming.Sys.Rules.{Ensures}
use network_pragramming.Sys.Trace.{shutdowns-append}
use network_pragramming.StrCli.{
  pending, backlog, is_drained, State, Sets, stdout, stdout_written, write_stdout, sock_written,
  write_sock,
}
use network_pragramming.StrCli.Flow.{Flow-quiet, Flow-accepted}
use network_pragramming.StrCli.Invariant.{Inv, Safe, Inv-Safe, Inv-quiet}

module _ (sock : ℕ) (apart : 1 < sock) (cs : List Call) (s : State) (v : Inv sock cs s) where
  pub stdout_phase :
      (q : Sets) (a : Answer ℕ)
      → Ensures cs (λ ds t. Inv sock ds t) (Safe sock) (write_stdout s q a)
  unfolding write_stdout stdout_written
  stdout_phase q a = elim (Bool-cases (q.w_stdout && ltb 0 (backlog s.fr))) [
    | inl r ↦ simp r (asked a)
    | inr r ↦ simp (r, append-nil) v
  ]
    where
      asked :
          (a : Answer ℕ)
          → Ensures cs
              (λ ds t. Inv sock ds t)
              (Safe sock)
              (write_some stdout (pending s.fr) a >>= λ r. stdout_written s r)
      asked (failed e) =
          let w = Inv-quiet sock cs (Call.write stdout (pending s.fr)) v refl refl refl refl refl in
          elim (Bool-cases (is_eagain e)) [ inl g ↦ rw g w | inr g ↦ rw g (Inv-Safe sock _ w) ]
      asked (gave n) =
          let k = min n (length (pending s.fr)) in
          let ds =
            Call.write stdout (pending s.fr) ∷ Call.accepted stdout (take k (pending s.fr)) ∷ [] in
          record {
            to = Flow-quiet cs ds v.to refl (ground arith);
            fr =
                Flow-accepted cs ds k v.fr (omega (arith, length-drop s.fr.out s.fr.stored)) refl
                  (append-nil (take k (pending s.fr)));
            once = ground (arith, shutdowns-append cs ds, v.once);
          }

  -- The bytes that a write to the socket handed over, with the shutdown behind the last of them.
  sock_accepted :
      (n k : ℕ)
      → 0 < backlog s.to
      → k ≤ backlog s.to
      → Ensures cs
          (λ ds t. Inv sock ds t)
          (Safe sock)
          (after
            (Call.write sock (pending s.to) ∷ Call.accepted sock (take k (pending s.to)) ∷ [])
            (sock_written sock s (gave k)))
  unfolding sock_written
  sock_accepted n k some_left l =
      elim (Bool-cases (is_drained (record (s.to) { out = s.to.out + k }) && s.stdineof)) [
        | inl d ↦ rw d (record {
          to = Flow-accepted cs shut k v.to l refl (ground (arith, append-nil taken));
          fr = Flow-quiet cs shut v.fr refl (ground arith);
          once = ground (arith, shutdowns-append cs shut, v.once);
        })
        | inr d ↦ rw d (record {
          to = Flow-accepted cs more k v.to l refl (ground (arith, append-nil taken));
          fr = Flow-quiet cs more v.fr refl (ground arith);
          once = ground (arith, shutdowns-append cs more, v.once);
        })
      ]
    where
      taken : Bytes
      taken = take k (pending s.to)

      more : List Call
      more = Call.write sock (pending s.to) ∷ Call.accepted sock taken ∷ []

      shut : List Call
      shut = Call.write sock (pending s.to) ∷ Call.accepted sock taken ∷ Call.shutdown_wr sock ∷ []

  pub sock_write_phase :
      (q : Sets) (a : Answer ℕ)
      → Ensures cs (λ ds t. Inv sock ds t) (Safe sock) (write_sock sock s q a)
  unfolding write_sock sock_written
  sock_write_phase q a = elim (Bool-cases (q.w_sock && ltb 0 (backlog s.to))) [
    | inl r ↦ simp r (asked a (ground arith))
    | inr r ↦ simp (r, append-nil) v
  ]
    where
      asked :
          (a : Answer ℕ)
          → 0 < backlog s.to
          → Ensures cs
              (λ ds t. Inv sock ds t)
              (Safe sock)
              (write_some sock (pending s.to) a >>= λ r. sock_written sock s r)
      asked (failed e) b =
          let w = Inv-quiet sock cs (Call.write sock (pending s.to)) v refl refl refl refl refl in
          elim (Bool-cases (is_eagain e)) [ inl g ↦ rw g w | inr g ↦ rw g (Inv-Safe sock _ w) ]
      asked (gave n) b =
          sock_accepted n (min n (length (pending s.to))) b
            (omega (arith, length-drop s.to.out s.to.stored))
