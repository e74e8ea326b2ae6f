-- ===== src/Slots.antt =====
-- The tables of client descriptors of the select servers: an array of int whose free slots hold
-- -1, here `none`.
use network_pragramming.Prelude.{
  ℕ, zero, suc, ◌≤◌, ◌<◌, ◌≡◌, refl, Option, none, some, List, [], ◌∷◌, arith, ◌==◌, if◌then◌else◌,
  length, drop,
}

abbrev pub Slots : Type 0
Slots = List (Option ℕ)

-- How many slots hold a descriptor.
abbrev pub used : Slots → ℕ
used [] = 0
used (none ∷ ss) = used ss
used (some fd ∷ ss) = suc (used ss)

-- How many slots hold the descriptor `fd`.
abbrev pub held : ℕ → Slots → ℕ
held fd [] = 0
held fd (none ∷ ss) = held fd ss
held fd (some d ∷ ss) = if d == fd then suc (held fd ss) else held fd ss

-- `for (i = 0; …; i++) if (-1 == cli_socks[i]) { cli_socks[i] = new_sock; …; break; }`
unfoldable pub store : ℕ → Slots → Slots
store fd [] = []
store fd (none ∷ ss) = some fd ∷ ss
store fd (some d ∷ ss) = some d ∷ store fd ss

-- The index at which that loop stops; the size of the table if no slot is free.
unfoldable pub first_free : Slots → ℕ
first_free [] = 0
first_free (none ∷ ss) = 0
first_free (some d ∷ ss) = suc (first_free ss)

pub length-store : (fd : ℕ) (ss : Slots) → length (store fd ss) ≡ length ss
unfolding store
length-store fd [] = refl
length-store fd (none ∷ ss) = refl
length-store fd (some d ∷ ss) = omega (arith, length-store fd ss)

pub used-le-length : (ss : Slots) → used ss ≤ length ss
used-le-length [] = omega arith
used-le-length (none ∷ ss) = omega (arith, used-le-length ss)
used-le-length (some d ∷ ss) = omega (arith, used-le-length ss)

pub held-le-used : (fd : ℕ) (ss : Slots) → held fd ss ≤ used ss
held-le-used fd [] = omega arith
held-le-used fd (none ∷ ss) = held-le-used fd ss
held-le-used fd (some d ∷ ss) = ground (arith, held-le-used fd ss)

-- While a slot is free, storing takes exactly one more slot.
pub used-store : (fd : ℕ) (ss : Slots) → used ss < length ss → used (store fd ss) ≡ suc (used ss)
unfolding store
used-store fd [] h = absurd (omega arith)
used-store fd (none ∷ ss) h = refl
used-store fd (some d ∷ ss) h = omega (arith, used-store fd ss (omega arith))

pub held-store :
    (fd d : ℕ) (ss : Slots)
    → used ss < length ss
    → held d (store fd ss) ≡ (if fd == d then suc (held d ss) else held d ss)
unfolding store
held-store fd d [] h = absurd (omega arith)
held-store fd d (none ∷ ss) h = refl
held-store fd d (some e ∷ ss) h = ground (arith, held-store fd d ss (omega arith))

-- The search stops inside the table exactly where some slot is free.
pub first_free-le-length : (ss : Slots) → first_free ss ≤ length ss
unfolding first_free
first_free-le-length [] = omega arith
first_free-le-length (none ∷ ss) = omega arith
first_free-le-length (some d ∷ ss) = omega (arith, first_free-le-length ss)

pub used_of_first_free-lt : (ss : Slots) → first_free ss < length ss → used ss < length ss
unfolding first_free
used_of_first_free-lt [] h = h
used_of_first_free-lt (none ∷ ss) h = omega (arith, used-le-length ss)
used_of_first_free-lt (some d ∷ ss) h = omega (arith, used_of_first_free-lt ss (omega arith))

-- Storing changes nothing behind the slot that it fills.
pub used-drop-store :
    (fd k : ℕ) (ss : Slots) → first_free ss < k → used (drop k (store fd ss)) ≡ used (drop k ss)
unfolding store first_free
used-drop-store fd zero ss h = absurd (omega arith)
used-drop-store fd (suc k) [] h = refl
used-drop-store fd (suc k) (none ∷ ss) h = refl
used-drop-store fd (suc k) (some d ∷ ss) h = used-drop-store fd k ss (omega arith)

pub used-drop_mono : (j k : ℕ) (ss : Slots) → j ≤ k → used (drop k ss) ≤ used (drop j ss)
used-drop_mono j zero ss h = let e : j ≡ 0 = omega arith in rw e (omega arith)
used-drop_mono j (suc k) [] h = omega arith
used-drop_mono zero (suc k) (none ∷ ss) h = used-drop_mono zero k ss (omega arith)
used-drop_mono zero (suc k) (some d ∷ ss) h = omega (arith, used-drop_mono zero k ss (omega arith))
used-drop_mono (suc j) (suc k) (s ∷ ss) h = used-drop_mono j k ss (omega arith)
