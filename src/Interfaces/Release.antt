-- ===== src/Interfaces/Release.antt =====
-- free_ifi_info of C/simple_interface_info.c on a heap of blocks, where reading or freeing a block
-- that is not allocated is an error.
pub mod Frees
use network_pragramming.Prelude.{
  ℕ, zero, suc, Bool, true, false, ◌||◌, Option, none, some, List, [], ◌∷◌, ◌++◌, ◌==◌,
  if◌then◌else◌,
}

-- The pointers of struct ifi_info; `none` is NULL.
pub record IfiInfo : Type 0 where
  pub ifi_addr : Option ℕ
  pub ifi_brdaddr : Option ℕ
  pub ifi_dstaddr : Option ℕ
  pub ifi_next : Option ℕ

-- What is in a block: a socket address, or a struct ifi_info.
pub data Block : Type 0 where
  sockaddr : Block
  ifi_info : IfiInfo → Block

abbrev pub Heap : Type 0
Heap = ℕ → Option Block

abbrev pub erase : ℕ → Heap → Heap
erase b h q = if q == b then none else h q

free_block : ℕ → Heap → Option Block → Option Heap
free_block b h none = none
free_block b h (some x) = some (erase b h)

free : ℕ → Heap → Option Heap
unfolding free_block
free b h = free_block b h (h b)

-- `if (NULL != p) free(p);`
free_if : Option ℕ → Heap → Option Heap
unfolding free
free_if none h = some h
free_if (some b) h = free b h

as_info : Option Block → Option IfiInfo
as_info none = none
as_info (some sockaddr) = none
as_info (some (ifi_info i)) = some i

infixl 5 ◌>>=◌
abbrev ◌>>=◌ : {A B : Type 0} → Option A → (A → Option B) → Option B
none >>= f = none
some a >>= f = f a

-- The body of the loop, with the next node; each `ifi->` reads the node again.
free_node : ℕ → Heap → Option (Option ℕ × Heap)
unfolding free_if as_info
free_node ifi h0 = do
  a ← as_info (h0 ifi)
  h1 ← free_if a.ifi_addr h0
  b ← as_info (h1 ifi)
  h2 ← free_if b.ifi_brdaddr h1
  d ← as_info (h2 ifi)
  h3 ← free_if d.ifi_dstaddr h2
  n ← as_info (h3 ifi)
  h4 ← free ifi h3
  some (n.ifi_next, h4)

-- The loop, with as many rounds as the first argument allows.
unfoldable pub free_ifi_info : ℕ → Option ℕ → Heap → Option Heap
unfolding free_node
free_ifi_info zero ifi h = none
free_ifi_info (suc n) none h = some h
free_ifi_info (suc n) (some ifi) h = do (next, h') ← free_node ifi h; free_ifi_info n next h'
