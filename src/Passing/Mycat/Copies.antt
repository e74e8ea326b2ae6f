-- ===== src/Passing/Mycat/Copies.antt =====
-- The copying loop of C/mycat.c.
use network_pragramming.Prelude.{
  ℕ, ◌≡◌, refl, Bool, true, false, List, [], ◌∷◌, ◌++◌, Bytes, length, min, take, arith,
}
use network_pragramming.Sys.{Answer, failed, gave, Call, Prog, exits, ◌>>=◌, read_some}
use network_pragramming.Sys.Trace.{input_of, requested}
use network_pragramming.Passing.Mycat.{Copied, copy_case, copy_all, buf_size}

-- What a read stores in front of the reads behind it, with whether they come to an end.
abbrev content_by : Answer Bytes → Bytes × Bool → Bytes × Bool
content_by (failed e) later = ([], true)
content_by (gave []) later = ([], true)
content_by (gave (b ∷ bytes)) (more, ended) = (take buf_size (b ∷ bytes) ++ more, ended)

-- What the reads store until the first that finds no more or fails, and whether there is one.
abbrev pub content : List Copied → Bytes × Bool
content [] = ([], false)
content (c ∷ cs) = content_by c.read (content cs)

abbrev CopiesTo : ℕ → Bytes → Prog (Unit {0}) → Type 0
CopiesTo fd bytes p =
    (cs : List Call) × (p ≡ exits cs 0) × (input_of fd cs ≡ bytes) × (requested 1 cs ≡ bytes)

turn-CopiesTo :
    (fd : ℕ) (a : Answer Bytes) (w : Answer ℕ) (p : Prog (Unit {0})) (later : Bytes × Bool)
    → (later.1 ≡ true → CopiesTo fd later.0 p)
    → (content_by a later).1 ≡ true
    → CopiesTo fd (content_by a later).0 (read_some fd buf_size a >>= λ i. copy_case i w p)
unfolding copy_case
turn-CopiesTo fd (failed e) w p later k h = (Call.read fd buf_size ∷ [], refl, refl, refl)
turn-CopiesTo fd (gave []) w p later k h =
    (Call.read fd buf_size ∷ Call.received fd [] ∷ [], refl, ground arith, refl)
turn-CopiesTo fd (gave (b ∷ bytes)) (failed e) p (more, ended) k h =
    let (cs, run, i, o) = k h in
    let got = take buf_size (b ∷ bytes) in
    (
      Call.read fd buf_size ∷ Call.received fd got ∷ Call.write 1 got ∷ cs,
      rw run refl,
      ground (arith, i),
      ground (arith, o),
    )
turn-CopiesTo fd (gave (b ∷ bytes)) (gave n) p (more, ended) k h =
    let (cs, run, i, o) = k h in
    let got = take buf_size (b ∷ bytes) in
    (
      Call.read fd buf_size
          ∷ Call.received fd got
          ∷ Call.write 1 got
          ∷ Call.accepted 1 (take (min n (length got)) got)
          ∷ cs,
      rw run refl,
      ground (arith, i),
      ground (arith, o),
    )

-- If some read finds the end of the file or fails, the loop ends with status 0, and it has handed
-- to stdout just the bytes that it has read up to there, whatever becomes of them there.
pub copy_all-copies :
    (fd : ℕ) (cs : List Copied)
    → (content cs).1 ≡ true
    → (ds : List Call) × (copy_all fd cs ≡ exits ds 0)
      × (input_of fd ds ≡ (content cs).0)
      × (requested 1 ds ≡ (content cs).0)
unfolding copy_all
copy_all-copies fd [] h = ground arith
copy_all-copies fd (c ∷ cs) h =
    turn-CopiesTo fd c.read c.written (copy_all fd cs) (content cs) (copy_all-copies fd cs) h
