-- ===== src/ForkServers/Loop.antt =====
-- The read loops of the children, up to what follows a read.
use network_pragramming.Prelude.{
  ℕ, suc, ◌≡◌, refl, sym, true, List, [], ◌∷◌, ◌++◌, Bytes, take, arith, if◌then◌else◌, Bool-cases,
  inl, inr,
}
use network_pragramming.Sys.{
  Errno, is_eintr, Answer, failed, gave, Call, Prog, waits, after, ◌>>=◌, Input, read_error,
  end_of_file, input, read_some,
}
use network_pragramming.Sys.Rules.{after-append, after-nil}
use network_pragramming.Sys.Trace.{writes_to, closes, closes-append}

-- A read, and the write that follows it.
pub record Turn : Type 0 where
  pub read : Answer Bytes
  pub written : Answer ℕ

-- `handle` is what follows a read, with the rest of the loop as its last argument.
module _ (size : ℕ) (handle : ℕ → Input → Answer ℕ → Prog (Unit {0}) → Prog (Unit {0})) where
  unfoldable pub loop : ℕ → List Turn → Prog (Unit {0})
  loop fd [] = waits (Call.read fd size ∷ [])
  loop fd (t ∷ ts) =
      let later = loop fd ts in read_some fd size t.read >>= λ i. handle fd i t.written later

-- How a row of reads ends: with no more answers, at the end of the file, or with an error.
pub data End : Type 0 where
  unread closed broken : End

-- A read in front of the reads behind it; one that a signal interrupts is tried again.
abbrev chunks_by : ℕ → Answer Bytes → List Bytes × End → List Bytes × End
chunks_by size (failed e) later = if is_eintr e then later else ([], broken)
chunks_by size (gave []) later = ([], closed)
chunks_by size (gave (b ∷ bytes)) (more, end) = (take size (b ∷ bytes) ∷ more, end)

-- What the reads of at most `size` bytes store, one after the other, and how they end.
abbrev pub chunks : ℕ → List Turn → List Bytes × End
chunks size [] = ([], unread)
chunks size (t ∷ ts) = chunks_by size t.read (chunks size ts)

-- Each write hands over some bytes.
abbrev pub AllWritten : List Turn → Type 0
AllWritten [] = Unit
AllWritten (t ∷ ts) = ((n : ℕ) × (t.written ≡ gave n)) × AllWritten ts

abbrev pub replies : (Bytes → Bytes) → List Bytes → List Bytes
replies reply [] = []
replies reply (c ∷ cs) = reply c ∷ replies reply cs

-- `p` does some calls that write `texts` to `fd`, and close nothing, and then what `q` does.
abbrev pub Serves : ℕ → List Bytes → Prog (Unit {0}) → Prog (Unit {0}) → Type 0
Serves fd texts q p =
    (cs : List Call) × (p ≡ after cs q) × (writes_to fd cs ≡ texts) × (closes cs ≡ 0)

pub Serves-after :
    (fd : ℕ) (texts : List Bytes) (q p : Prog (Unit {0})) (ds : List Call) (first : List Bytes)
    → Serves fd texts q p
    → ((cs : List Call) → writes_to fd cs ≡ texts → writes_to fd (ds ++ cs) ≡ first)
    → closes ds ≡ 0
    → Serves fd first q (after ds p)
Serves-after fd texts q p ds first (cs, e, w, c) h d =
    (ds ++ cs, rw e (after-append ds cs q), h cs w, omega (arith, closes-append ds cs))

-- What a server does behind its reads: `final` at the end of the file, or waits for more.
abbrev pub ending : ℕ → ℕ → Prog (Unit {0}) → End → Prog (Unit {0})
ending fd size final unread = waits (Call.read fd size ∷ [])
ending fd size final closed = after (Call.read fd size ∷ Call.received fd [] ∷ []) final
ending fd size final broken = final

-- A server that tries an interrupted read again, ends with `final` at the end of the file, and
-- answers what it reads with `reply`.
module _ (fd m : ℕ) (handle : ℕ → Input → Answer ℕ → Prog (Unit {0}) → Prog (Unit {0}))
    (reply : Bytes → Bytes) (final : Prog (Unit {0}))
    (again : (e : Errno) (w : Answer ℕ) (p : Prog (Unit {0}))
      → is_eintr e ≡ true
      → handle fd (read_error e) w p ≡ p)
    (at_end : (w : Answer ℕ) (p : Prog (Unit {0})) → handle fd end_of_file w p ≡ final)
    (answers : (bytes : Bytes) (n : ℕ) (p : Prog (Unit {0}))
      → (k : Bytes) × (handle fd (input bytes) (gave n) p
          ≡ after (Call.write fd (reply bytes) ∷ Call.accepted fd k ∷ []) p)) where
  turn-Serves :
      (a : Answer Bytes) (n : ℕ) (p : Prog (Unit {0})) (later : List Bytes × End)
      → (¬ (later.1 ≡ broken)
          → Serves fd (replies reply later.0) (ending fd (suc m) final later.1) p)
      → ¬ ((chunks_by (suc m) a later).1 ≡ broken)
      → Serves fd
          (replies reply (chunks_by (suc m) a later).0)
          (ending fd (suc m) final (chunks_by (suc m) a later).1)
          (read_some fd (suc m) a >>= λ i. handle fd i (gave n) p)
  turn-Serves (failed e) n p later k ok = elim (Bool-cases (is_eintr e)) [
    | inl i ↦
        rw (i, again e (gave n) p i)
          (Serves-after fd (replies reply later.0) _ p (Call.read fd (suc m) ∷ []) _
            (k (rw i at ok)) (λ cs w. w) refl)
    | inr i ↦ absurd (ok (rw i refl))
  ]
  turn-Serves (gave []) n p later k ok = (
    [],
    rw (at_end (gave n) p)
        (sym (after-nil (after (Call.read fd (suc m) ∷ Call.received fd [] ∷ []) final))),
    refl,
    refl,
  )
  turn-Serves (gave (b ∷ bytes)) n p later k ok =
      let (taken, e) = answers (b ∷ take m bytes) n p in
      rw e (
        Serves-after fd (reply (b ∷ take m bytes) ∷ replies reply later.0) _ _
          (Call.read fd (suc m) ∷ Call.received fd (b ∷ take m bytes) ∷ []) _
          (Serves-after fd (replies reply later.0) _ p
            (Call.write fd (reply (b ∷ take m bytes)) ∷ Call.accepted fd taken ∷ [])
            (reply (b ∷ take m bytes) ∷ replies reply later.0) (k ok) (λ cs w. ground (arith, w))
            refl)
          (λ cs w. w) refl)

  pub loop-Serves :
      (ts : List Turn)
      → AllWritten ts
      → ¬ ((chunks (suc m) ts).1 ≡ broken)
      → Serves fd
          (replies reply (chunks (suc m) ts).0)
          (ending fd (suc m) final (chunks (suc m) ts).1)
          (loop (suc m) handle fd ts)
  unfolding loop
  loop-Serves [] h ok = ([], refl, refl, refl)
  loop-Serves (t ∷ ts) ((n, w), h) ok =
      rw w
        (turn-Serves t.read n (loop (suc m) handle fd ts) (chunks (suc m) ts) (loop-Serves ts h) ok)
