-- ===== src/Http/Transfer/Send.antt =====
-- C/http_client.c: what the send loop delivers.
use network_pragramming.Prelude.{
  ℕ, ◌+◌, ◌≤◌, ◌<◌, ◌≡◌, ap, ◌∙◌, List, [], ◌∷◌, ◌++◌, Bytes, length, take, drop, arith, ltb, ◌==◌,
  append-nil, append_assoc, take-add, take_of_length-le, Bool-cases, inl, inr,
}
use network_pragramming.Sys.{Answer, failed, gave, Call, Prog, returns, after, after-eq-returns}
use network_pragramming.Http.Transfer.{send_loop}

-- The bytes that the kernel takes over in these calls: the answer n to a write of b accepts the
-- first n bytes of b.
abbrev pub delivered : List Call → List (Answer ℕ) → Bytes
delivered (Call.write fd b ∷ cs) (gave n ∷ rest) = take n b ++ delivered cs rest
delivered cs answers = []

-- One accepted write, in front of what the later ones deliver.
delivered_write :
    (fd : ℕ) (m : Bytes) (sent k : ℕ) (rest : List (Answer ℕ)) {cs : List Call} {n : ℕ}
    → after (Call.write fd (drop sent m) ∷ []) (send_loop fd m (sent + k) rest) ≡ returns cs n
    → ((es : List Call)
        → send_loop fd m (sent + k) rest ≡ returns es n
        → take (sent + k) m ++ delivered es rest ≡ take n m)
    → take sent m ++ delivered cs (gave k ∷ rest) ≡ take n m
delivered_write fd m sent k rest h ih =
    let (es, p, e) =
      after-eq-returns (Call.write fd (drop sent m) ∷ []) (send_loop fd m (sent + k) rest) h in
    rw
      (
        e,
        ← append_assoc (take sent m) (take k (drop sent m)) (delivered es rest),
        ← take-add sent k m,
      )
      (ih es p)

delivered_from :
    (fd : ℕ) (m : Bytes) (sent : ℕ) (answers : List (Answer ℕ)) {cs : List Call} {n : ℕ}
    → send_loop fd m sent answers ≡ returns cs n
    → take sent m ++ delivered cs answers ≡ take n m
unfolding send_loop
delivered_from fd m sent [] h = ground arith
delivered_from fd m sent (failed e ∷ rest) h = ground arith
delivered_from fd m sent (gave k ∷ rest) {cs} {n} h = elim (Bool-cases (k == 0)) [
  | inl z ↦ ground (arith, append-nil (take sent m))
  | inr z ↦ elim (Bool-cases (ltb (sent + k) (length m))) [
    | inl l ↦
        delivered_write fd m sent k rest (rw (z, l) at h)
          (λ es p. delivered_from fd m (sent + k) rest p)
    | inr l ↦ ground (arith, take-add sent k m, append-nil (take k (drop sent m)))
  ]
]

-- Every write makes progress.
abbrev pub Progress : List (Answer ℕ) → Type 0
Progress [] = Unit
Progress (failed e ∷ rest) = ⊥
Progress (gave n ∷ rest) = (0 < n) × Progress rest

-- The loop returns, having sent `n` bytes.
abbrev Finishes : Prog ℕ → ℕ → Type 0
Finishes p total = (cs : List Call) × (n : ℕ) × (p ≡ returns cs n) × (total ≤ n)

Finishes-after : (cs : List Call) (p : Prog ℕ) (t : ℕ) → Finishes p t → Finishes (after cs p) t
Finishes-after cs p t (ds, n, e, h) = (cs ++ ds, n, ap (after cs) e, h)

Finishes-from :
    (fd : ℕ) (m : Bytes) (sent : ℕ) (answers : List (Answer ℕ))
    → Progress answers
    → 0 < length answers
    → length m ≤ sent + length answers
    → Finishes (send_loop fd m sent answers) (length m)
unfolding send_loop
Finishes-from fd m sent [] p h l = absurd (omega arith)
Finishes-from fd m sent (failed e ∷ rest) p h l = absurd p
Finishes-from fd m sent (gave k ∷ rest) (pos, p) h l = elim (Bool-cases (k == 0)) [
  | inl z ↦ absurd (ground arith)
  | inr z ↦ elim (Bool-cases (ltb (sent + k) (length m))) [
    | inl more ↦
        rw (z, more)
          (Finishes-after (Call.write fd (drop sent m) ∷ []) _ (length m)
            (Finishes-from fd m (sent + k) rest p (ground arith) (omega arith)))
    | inr done ↦ (Call.write fd (drop sent m) ∷ [], sent + k, rw (z, done), ground arith)
  ]
]

-- When every write makes progress and there are as many as the request has bytes, and one at
-- least, the send loop returns, and the bytes that the kernel took over are the request.
pub send_loop-delivers :
    (fd : ℕ) (m : Bytes) (answers : List (Answer ℕ))
    → Progress answers
    → 0 < length answers
    → length m ≤ length answers
    → (cs : List Call) × (n : ℕ) × (send_loop fd m 0 answers ≡ returns cs n)
      × (delivered cs answers ≡ m)
send_loop-delivers fd m answers p h l =
    let (cs, n, e, full) = Finishes-from fd m 0 answers p h (omega arith) in
    (cs, n, e, delivered_from fd m 0 answers e ∙ take_of_length-le n m full)
