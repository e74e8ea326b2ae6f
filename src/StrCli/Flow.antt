-- ===== src/StrCli/Flow.antt =====
-- One direction of str_cli: the bytes read from `src`, those written to `dst` and those between.
use network_pragramming.Prelude.{
  ℕ, ◌+◌, ◌≤◌, ◌≡◌, List, [], ◌++◌, Bytes, length, take, drop, arith, ◌==◌, append-nil,
  append_assoc, length-append, drop-append, drop-add, take-append-drop, drop_of_length-le,
  Bool-cases, inl, inr, length-drop, sym,
}
use network_pragramming.Sys.{Call}
use network_pragramming.Sys.Trace.{input_of, output_of, input_of-append, output_of-append}
use network_pragramming.StrCli.{Buffer, pending, room, backlog, max_size, append, advance}

pub record Flow (src dst : ℕ) (cs : List Call) (b : Buffer) : Type 0 where
  pub relayed : input_of src cs ≡ output_of dst cs ++ pending b
  pub ordered : b.out ≤ length b.stored
  pub bounded : length b.stored ≤ max_size

-- Calls that neither read `src` nor write `dst`.
pub Flow-quiet :
    {src dst : ℕ} (cs ds : List Call) {b : Buffer}
    → Flow src dst cs b
    → input_of src ds ≡ []
    → output_of dst ds ≡ []
    → Flow src dst (cs ++ ds) b
Flow-quiet {src} {dst} cs ds {b} f i o = record {
  relayed =
      rw (input_of-append src cs ds, output_of-append dst cs ds, i, o, append-nil, append-nil)
        f.relayed;
  ordered = f.ordered;
  bounded = f.bounded;
}

-- Bytes read from `src` into the room behind the input pointer.
pub Flow-received :
    {src dst : ℕ} (cs ds : List Call) {b : Buffer} (bytes : Bytes)
    → Flow src dst cs b
    → length bytes ≤ room b
    → input_of src ds ≡ bytes
    → output_of dst ds ≡ []
    → Flow src dst (cs ++ ds) (append b bytes)
Flow-received {src} {dst} cs ds {b} bytes f l i o = record {
  relayed =
      rw
        (
          input_of-append src cs ds,
          output_of-append dst cs ds,
          i,
          o,
          append-nil,
          drop-append b.out b.stored bytes f.ordered,
          f.relayed,
        )
        (append_assoc (output_of dst cs) (pending b) bytes);
  ordered = ground (arith, length-append b.stored bytes, f.ordered);
  bounded = ground (arith, length-append b.stored bytes, f.bounded);
}

-- What is pending after `k` more bytes.
pending-advance : (b : Buffer) (k : ℕ) → pending (advance b k) ≡ drop k (pending b)
unfolding advance
pending-advance b k = elim (Bool-cases (b.out + k == length b.stored)) [
  | inl e ↦
      rw e (sym (drop_of_length-le k (pending b) (ground (arith, length-drop b.out b.stored))))
  | inr e ↦ rw e (drop-add b.out k b.stored)
]

-- The first `k` pending bytes written to `dst`.
pub Flow-accepted :
    {src dst : ℕ} (cs ds : List Call) {b : Buffer} (k : ℕ)
    → Flow src dst cs b
    → k ≤ backlog b
    → input_of src ds ≡ []
    → output_of dst ds ≡ take k (pending b)
    → Flow src dst (cs ++ ds) (advance b k)
Flow-accepted {src} {dst} cs ds {b} k f l i o = record {
  relayed =
      rw
        (
          input_of-append src cs ds,
          output_of-append dst cs ds,
          i,
          o,
          append-nil,
          pending-advance b k,
          append_assoc (output_of dst cs) (take k (pending b)) (drop k (pending b)),
          take-append-drop k (pending b),
        )
        f.relayed;
  ordered = unfold advance in ground (arith, f.ordered);
  bounded = unfold advance in ground (arith, f.bounded);
}
