-- ===== src/Interfaces/Release/Frees.antt =====
-- free_ifi_info on a list whose blocks are all different.
use network_pragramming.Prelude.{
  ℕ, suc, ◌≡◌, ◌≢◌, refl, sym, ap, ◌∙◌, Bool, false, ◌||◌, Option, none, some, List, [], ◌∷◌, ◌++◌,
  ◌==◌, if◌then◌else◌, arith,
}
use network_pragramming.Interfaces.Release.{
  IfiInfo, sockaddr, ifi_info, Heap, erase, free_block, free, free_if, as_info, free_node,
  free_ifi_info,
}

abbrev pub optional : Option ℕ → List ℕ
optional none = []
optional (some b) = b ∷ []

-- The blocks of one node, in the order of their release.
abbrev pub blocks_of : IfiInfo → ℕ → List ℕ → List ℕ
blocks_of i ifi rest =
    optional i.ifi_addr ++ (optional i.ifi_brdaddr ++ (optional i.ifi_dstaddr ++ (ifi ∷ rest)))

-- The pointer is NULL, or points to a socket address.
abbrev pub PointsTo : Heap → Option ℕ → Type 0
PointsTo h none = Unit
PointsTo h (some b) = h b ≡ some sockaddr

-- `Chain h p n bs`: p is a list of n nodes in h, and bs are its blocks.
pub data Chain (h : Heap) : Option ℕ → ℕ → List ℕ → Type 0 where
  end : Chain h none 0 []
  node :
      (ifi : ℕ) (i : IfiInfo) {n : ℕ} {bs : List ℕ}
      → h ifi ≡ some (ifi_info i)
      → PointsTo h i.ifi_addr
      → PointsTo h i.ifi_brdaddr
      → PointsTo h i.ifi_dstaddr
      → Chain h i.ifi_next n bs
      → Chain h (some ifi) (suc n) (blocks_of i ifi bs)

abbrev pub NotIn : ℕ → List ℕ → Type 0
NotIn b [] = Unit
NotIn b (c ∷ bs) = (c ≢ b) × NotIn b bs

abbrev pub Distinct : List ℕ → Type 0
Distinct [] = Unit
Distinct (b ∷ bs) = NotIn b bs × Distinct bs

-- Two heaps agree on some blocks.
abbrev Keeps : Heap → Heap → List ℕ → Type 0
Keeps h k [] = Unit
Keeps h k (b ∷ bs) = (k b ≡ h b) × Keeps h k bs

Keeps-refl : (h : Heap) (bs : List ℕ) → Keeps h h bs
Keeps-refl h [] = tt
Keeps-refl h (b ∷ bs) = (refl, Keeps-refl h bs)

Keeps-erase :
    (h k : Heap) (b : ℕ) (bs : List ℕ) → NotIn b bs → Keeps h k bs → Keeps h (erase b k) bs
Keeps-erase h k b [] d e = tt
Keeps-erase h k b (c ∷ bs) (n, d) (e, es) =
    let other : (c == b) ≡ false = ground arith in (rw other e, Keeps-erase h k b bs d es)

Keeps-tail : (h k : Heap) (o : Option ℕ) (bs : List ℕ) → Keeps h k (optional o ++ bs) → Keeps h k bs
Keeps-tail h k none bs e = e
Keeps-tail h k (some b) bs (e, es) = es

abbrev clear : List ℕ → Heap → Heap
clear [] h = h
clear (b ∷ bs) h = clear bs (erase b h)

-- What free_if leaves.
record Step (h k : Heap) (o : Option ℕ) (rest : List ℕ) : Type 0 where
  heap : Heap
  frees : free_if o k ≡ some heap
  clears : clear (optional o ++ rest) k ≡ clear rest heap
  keeps : Keeps h heap rest
  distinct : Distinct rest

free_if-Step :
    (h k : Heap) (o : Option ℕ) (rest : List ℕ)
    → PointsTo h o
    → Keeps h k (optional o ++ rest)
    → Distinct (optional o ++ rest)
    → Step h k o rest
unfolding free_if free free_block
free_if-Step h k none rest p e d = record {
  heap = k;
  frees = refl;
  clears = refl;
  keeps = e;
  distinct = d;
}
free_if-Step h k (some b) rest p (e, es) (n, d) = record {
  heap = erase b k;
  frees = rw (e, p) refl;
  clears = refl;
  keeps = Keeps-erase h k b rest n es;
  distinct = d;
}

free_list :
    {h : Heap} {p : Option ℕ} {n : ℕ} {bs : List ℕ} (k : Heap)
    → Chain h p n bs
    → Keeps h k bs
    → Distinct bs
    → free_ifi_info (suc n) p k ≡ some (clear bs k)
unfolding free_ifi_info free_node free free_block as_info
free_list k end e d = refl
free_list {h} k (node ifi i {n} {bs} at_ifi pa pb pd more) e d =
    let r3 = ifi ∷ bs in
    let r2 = optional i.ifi_dstaddr ++ r3 in
    let r1 = optional i.ifi_brdaddr ++ r2 in
    let a = free_if-Step h k i.ifi_addr r1 pa e d in
    let b = free_if-Step h a.heap i.ifi_brdaddr r2 pb a.keeps a.distinct in
    let c = free_if-Step h b.heap i.ifi_dstaddr r3 pd b.keeps b.distinct in
    let e0 =
      (Keeps-tail h k i.ifi_dstaddr r3
        (Keeps-tail h k i.ifi_brdaddr r2 (Keeps-tail h k i.ifi_addr r1 e))).0 in
    let e1 =
      (Keeps-tail h a.heap i.ifi_dstaddr r3 (Keeps-tail h a.heap i.ifi_brdaddr r2 a.keeps)).0 in
    let e2 = (Keeps-tail h b.heap i.ifi_dstaddr r3 b.keeps).0 in
    let later =
      free_list (erase ifi c.heap) more (Keeps-erase h c.heap ifi bs c.distinct.0 c.keeps.1)
        c.distinct.1 in
    rw (e0, at_ifi, a.frees, e1, at_ifi, b.frees, e2, at_ifi, c.frees, c.keeps.0, at_ifi, later)
      (ap some (sym (a.clears ∙ b.clears ∙ c.clears)))

abbrev pub is_in : ℕ → List ℕ → Bool
is_in q [] = false
is_in q (b ∷ bs) = (q == b) || is_in q bs

clear-is_in : (bs : List ℕ) (h : Heap) (q : ℕ) → clear bs h q ≡ (if is_in q bs then none else h q)
clear-is_in [] h q = refl
clear-is_in (b ∷ bs) h q = ground (arith, clear-is_in bs (erase b h) q)

-- On a list of n nodes whose blocks are allocated and all different, free_ifi_info ends after n
-- rounds; it reads no block that it has released and releases none twice, and afterwards the
-- blocks of the list are free and all others are as they were.
pub free_ifi_info-frees :
    (h : Heap) (p : Option ℕ) (n : ℕ) (bs : List ℕ)
    → Chain h p n bs
    → Distinct bs
    → (k : Heap) × (free_ifi_info (suc n) p h ≡ some k)
      × ((q : ℕ) → k q ≡ (if is_in q bs then none else h q))
free_ifi_info-frees h p n bs c d = (clear bs h, free_list h c (Keeps-refl h bs) d, clear-is_in bs h)
