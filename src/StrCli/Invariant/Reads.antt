-- ===== src/StrCli/Invariant/Reads.antt =====
-- The invariant of str_cli over its reads from stdin and from the socket.
use network_pragramming.Prelude.{
  ℕ, ◌≤◌, ◌<◌, ◌≡◌, refl, true, false, List, [], ◌∷◌, ◌++◌, Bytes, length, take, arith, append-nil,
  length-take, Bool-cases, inl, inr,
}
use network_pragramming.Sys.{
  is_eagain, input_cases, read_some, ◌>>=◌, after, Answer, failed, gave, Call,
}
use network_pragramming.Sys.Rules.{Ensures}
use network_pragramming.Sys.Trace.{shutdowns-append}
use network_pragramming.StrCli.{
  room, is_drained, State, Sets, stdin, stdin_input, read_stdin, sock_input, read_sock,
}
use network_pragramming.StrCli.Flow.{Flow-quiet, Flow-received}
use network_pragramming.StrCli.Invariant.{Inv, Safe, Inv-Safe, Inv-quiet, Carries}

module _ (sock : ℕ) (apart : 1 < sock) (cs : List Call) (s : State) (v : Inv sock cs s) where
  -- The bytes that a read from stdin stored, or the end of stdin.
  stdin_stored :
      (q : Sets) (n : ℕ) (stored : Bytes)
      → s.stdineof ≡ false
      → length stored ≤ room s.to
      → Ensures cs
          (λ ds r. Inv sock ds r.0)
          (Safe sock)
          (after
            (Call.read stdin n ∷ Call.received stdin stored ∷ [])
            (stdin_input sock s q (input_cases stored)))
  unfolding stdin_input
  stdin_stored q n [] o l = elim (Bool-cases (is_drained s.to)) [
    | inl d ↦ rw d (record {
      to = Flow-quiet cs _ v.to refl refl;
      fr = Flow-quiet cs _ v.fr (ground arith) refl;
      once = ground (
        arith,
        shutdowns-append cs
            (Call.read stdin n ∷ Call.received stdin [] ∷ Call.shutdown_wr sock ∷ []),
        v.once,
      );
    })
    | inr d ↦ rw d (record {
      to = Flow-quiet cs _ v.to refl refl;
      fr = Flow-quiet cs _ v.fr (ground arith) refl;
      once =
          ground
            (arith, shutdowns-append cs (Call.read stdin n ∷ Call.received stdin [] ∷ []), v.once);
    })
  ]
  stdin_stored q n (b ∷ bytes) o l = record {
    to = Flow-received cs _ (b ∷ bytes) v.to l (append-nil (b ∷ bytes)) refl;
    fr = Flow-quiet cs _ v.fr (ground arith) refl;
    once = ground (
      arith,
      shutdowns-append cs (Call.read stdin n ∷ Call.received stdin (b ∷ bytes) ∷ []),
      v.once,
    );
  }

  pub stdin_phase :
      (q : Sets) (a : Answer Bytes)
      → (q.r_stdin ≡ true → s.stdineof ≡ false)
      → Ensures cs (λ ds r. Inv sock ds r.0) (Safe sock) (read_stdin sock s q a)
  unfolding read_stdin
  stdin_phase q a o = elim (Bool-cases q.r_stdin) [
    | inl r ↦ simp r (asked a (o r))
    | inr r ↦ simp (r, append-nil) v
  ]
    where
      asked :
          (a : Answer Bytes)
          → s.stdineof ≡ false
          → Ensures cs
              (λ ds r. Inv sock ds r.0)
              (Safe sock)
              (read_some stdin (room s.to) a >>= λ i. stdin_input sock s q i)
      asked (failed e) o' =
          let w = Inv-quiet sock cs (Call.read stdin (room s.to)) v refl refl refl refl refl in
          elim (Bool-cases (is_eagain e)) [ inl g ↦ rw g w | inr g ↦ rw g (Inv-Safe sock _ w) ]
      asked (gave bytes) o' =
          stdin_stored q (room s.to) (take (room s.to) bytes) o'
            (omega (arith, length-take (room s.to) bytes))

  -- The bytes that a read from the socket stored, or its end.
  sock_stored :
      (q : Sets) (n : ℕ) (stored : Bytes)
      → length stored ≤ room s.fr
      → Ensures cs
          (λ ds r. Carries sock ds r)
          (Safe sock)
          (after
            (Call.read sock n ∷ Call.received sock stored ∷ [])
            (sock_input s q (input_cases stored)))
  unfolding sock_input
  sock_stored q n [] l = elim (Bool-cases s.stdineof) [
    | inl e ↦ simp e (Inv-Safe sock _ quiet)
    | inr e ↦ simp e (Inv-Safe sock _ quiet)
  ]
    where
      quiet : Inv sock (cs ++ (Call.read sock n ∷ Call.received sock [] ∷ [])) s
      quiet = record {
        to = Flow-quiet cs _ v.to (ground arith) refl;
        fr = Flow-quiet cs _ v.fr (ground arith) refl;
        once =
            ground
              (arith, shutdowns-append cs (Call.read sock n ∷ Call.received sock [] ∷ []), v.once);
      }
  sock_stored q n (b ∷ bytes) l = record {
    to = Flow-quiet cs _ v.to (ground arith) refl;
    fr = Flow-received cs _ (b ∷ bytes) v.fr l (ground (arith, append-nil (b ∷ bytes))) refl;
    once = ground (
      arith,
      shutdowns-append cs (Call.read sock n ∷ Call.received sock (b ∷ bytes) ∷ []),
      v.once,
    );
  }

  pub sock_phase :
      (q : Sets) (a : Answer Bytes)
      → Ensures cs (λ ds r. Carries sock ds r) (Safe sock) (read_sock sock s q a)
  unfolding read_sock sock_input
  sock_phase q a = elim (Bool-cases q.r_sock) [
    | inl r ↦ simp r (asked a)
    | inr r ↦ simp (r, append-nil) v
  ]
    where
      asked :
          (a : Answer Bytes)
          → Ensures cs
              (λ ds r. Carries sock ds r)
              (Safe sock)
              (read_some sock (room s.fr) a >>= λ i. sock_input s q i)
      asked (failed e) =
          let w = Inv-quiet sock cs (Call.read sock (room s.fr)) v refl refl refl refl refl in
          elim (Bool-cases (is_eagain e)) [ inl g ↦ rw g w | inr g ↦ rw g (Inv-Safe sock _ w) ]
      asked (gave bytes) =
          sock_stored q (room s.fr) (take (room s.fr) bytes)
            (omega (arith, length-take (room s.fr) bytes))
