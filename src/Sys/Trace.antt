-- ===== src/Sys/Trace.antt =====
-- What a trace of calls reads, writes and shuts down.
use network_pragramming.Prelude.{
  arith, ℕ, suc, ◌+◌, ◌≤◌, append_assoc, List, [], ◌∷◌, ◌++◌, ◌≡◌, refl, Bytes, ◌==◌, if◌then◌else◌,
}
use network_pragramming.Sys.{
  Answer, Call, Prog, after, read_some, trace, ◌>>=◌, returns, exits, waits, failed, gave,
}
use network_pragramming.Sys.Rules.{Post}

-- All that was read from `fd` in a trace, and all that was written to it.
abbrev pub input_of : ℕ → List Call → Bytes
input_of fd [] = []
input_of fd (Call.received d bytes ∷ cs) =
    if d == fd then bytes ++ input_of fd cs else input_of fd cs
input_of fd (c ∷ cs) = input_of fd cs

abbrev pub output_of : ℕ → List Call → Bytes
output_of fd [] = []
output_of fd (Call.accepted d bytes ∷ cs) =
    if d == fd then bytes ++ output_of fd cs else output_of fd cs
output_of fd (c ∷ cs) = output_of fd cs

abbrev pub shutdowns : List Call → ℕ
shutdowns [] = 0
shutdowns (Call.shutdown_wr d ∷ cs) = suc (shutdowns cs)
shutdowns (c ∷ cs) = shutdowns cs

pub input_of-append :
    (fd : ℕ) (cs ds : List Call) → input_of fd (cs ++ ds) ≡ input_of fd cs ++ input_of fd ds
input_of-append fd [] ds = refl
input_of-append fd (Call.received d bytes ∷ cs) ds =
    ground (arith, input_of-append fd cs ds, append_assoc bytes (input_of fd cs) (input_of fd ds))
input_of-append fd (_ ∷ cs) ds = input_of-append fd cs ds

pub output_of-append :
    (fd : ℕ) (cs ds : List Call) → output_of fd (cs ++ ds) ≡ output_of fd cs ++ output_of fd ds
output_of-append fd [] ds = refl
output_of-append fd (Call.accepted d bytes ∷ cs) ds =
    ground
      (arith, output_of-append fd cs ds, append_assoc bytes (output_of fd cs) (output_of fd ds))
output_of-append fd (_ ∷ cs) ds = output_of-append fd cs ds

pub shutdowns-append : (cs ds : List Call) → shutdowns (cs ++ ds) ≡ shutdowns cs + shutdowns ds
shutdowns-append [] ds = omega arith
shutdowns-append (Call.shutdown_wr d ∷ cs) ds = omega (arith, shutdowns-append cs ds)
shutdowns-append (_ ∷ cs) ds = shutdowns-append cs ds

-- How often a trace reads from `fd`.
abbrev pub reads : ℕ → List Call → ℕ
reads fd [] = 0
reads fd (Call.read d n ∷ cs) = if d == fd then suc (reads fd cs) else reads fd cs
reads fd (c ∷ cs) = reads fd cs

pub reads-append : (fd : ℕ) (cs ds : List Call) → reads fd (cs ++ ds) ≡ reads fd cs + reads fd ds
reads-append fd [] ds = omega arith
reads-append fd (Call.read d n ∷ cs) ds = ground (arith, reads-append fd cs ds)
reads-append fd (_ ∷ cs) ds = reads-append fd cs ds

pub reads-after :
    {A : Type 0} (fd : ℕ) (cs : List Call) (p : Prog A)
    → reads fd (trace (after cs p)) ≡ reads fd cs + reads fd (trace p)
reads-after fd cs (returns ds a) = reads-append fd cs ds
reads-after fd cs (exits ds n) = reads-append fd cs ds
reads-after fd cs (waits ds) = reads-append fd cs ds

pub reads-bind-Post :
    {A B : Type 0} (fd k : ℕ) (P : A → Type 0) (m : Prog A) (f : A → Prog B)
    → Post P m
    → ((a : A) → P a → reads fd (trace (f a)) ≤ k)
    → reads fd (trace (m >>= f)) ≤ reads fd (trace m) + k
reads-bind-Post fd k P (returns cs a) f p h = omega (arith, reads-after fd cs (f a), h a p)
reads-bind-Post fd k P (exits cs n) f p h = omega arith
reads-bind-Post fd k P (waits cs) f p h = omega arith

pub reads-bind :
    {A B : Type 0} (fd k : ℕ) (m : Prog A) (f : A → Prog B)
    → ((a : A) → reads fd (trace (f a)) ≤ k)
    → reads fd (trace (m >>= f)) ≤ reads fd (trace m) + k
reads-bind fd k (returns cs a) f h = omega (arith, reads-after fd cs (f a), h a)
reads-bind fd k (exits cs n) f h = omega arith
reads-bind fd k (waits cs) f h = omega arith

pub read_some-reads :
    (fd sd n : ℕ) (a : Answer Bytes)
    → reads fd (trace (read_some sd n a)) ≡ (if sd == fd then 1 else 0)
read_some-reads fd sd n (failed e) = refl
read_some-reads fd sd n (gave bytes) = refl

-- How many descriptors a trace closes.
abbrev pub closes : List Call → ℕ
closes [] = 0
closes (Call.close fd ∷ cs) = suc (closes cs)
closes (c ∷ cs) = closes cs

pub closes-append : (cs ds : List Call) → closes (cs ++ ds) ≡ closes cs + closes ds
closes-append [] ds = omega arith
closes-append (Call.close fd ∷ cs) ds = omega (arith, closes-append cs ds)
closes-append (_ ∷ cs) ds = closes-append cs ds

-- What a trace hands to write on `fd`, one text for each call.
abbrev pub writes_to : ℕ → List Call → List Bytes
writes_to fd [] = []
writes_to fd (Call.write d bytes ∷ cs) =
    if d == fd then bytes ∷ writes_to fd cs else writes_to fd cs
writes_to fd (c ∷ cs) = writes_to fd cs

-- The bytes that a trace hands to write on `fd`.
abbrev pub requested : ℕ → List Call → Bytes
requested fd [] = []
requested fd (Call.write d bytes ∷ cs) =
    if d == fd then bytes ++ requested fd cs else requested fd cs
requested fd (c ∷ cs) = requested fd cs

pub writes_to-append :
    (fd : ℕ) (cs ds : List Call) → writes_to fd (cs ++ ds) ≡ writes_to fd cs ++ writes_to fd ds
writes_to-append fd [] ds = refl
writes_to-append fd (Call.write d bytes ∷ cs) ds = ground (arith, writes_to-append fd cs ds)
writes_to-append fd (_ ∷ cs) ds = writes_to-append fd cs ds

-- What fputs has printed in a trace.
abbrev pub printed : List Call → Bytes
printed [] = []
printed (Call.put bytes ∷ cs) = bytes ++ printed cs
printed (c ∷ cs) = printed cs

-- The datagrams that a trace sends through `fd`.
abbrev pub sends : ℕ → List Call → List Bytes
sends fd [] = []
sends fd (Call.send_to d bytes ∷ cs) = if d == fd then bytes ∷ sends fd cs else sends fd cs
sends fd (c ∷ cs) = sends fd cs

-- How often a trace closes the descriptor `fd`.
abbrev pub closes_of : ℕ → List Call → ℕ
closes_of fd [] = 0
closes_of fd (Call.close d ∷ cs) = if d == fd then suc (closes_of fd cs) else closes_of fd cs
closes_of fd (c ∷ cs) = closes_of fd cs

pub closes_of-append :
    (fd : ℕ) (cs ds : List Call) → closes_of fd (cs ++ ds) ≡ closes_of fd cs + closes_of fd ds
closes_of-append fd [] ds = omega arith
closes_of-append fd (Call.close d ∷ cs) ds = ground (arith, closes_of-append fd cs ds)
closes_of-append fd (_ ∷ cs) ds = closes_of-append fd cs ds
