-- ===== src/Daemon/Waits.antt =====
-- Multiples of an interval, and the times between them.
use uplinkmgr.Prelude.{
  ◌*◌, pos_part, neg_part, ℕ, ◌+◌, ◌≡◌, ℤ, pos, ◌-ℤ◌, ◌*ℤ◌, ◌≤ℤ◌, arith, int_laws,
}

pub no_wait : (i last : ℤ) → pos 0 *ℤ i ≤ℤ last -ℤ last
unfolding ◌*ℤ◌ ◌-ℤ◌
no_wait i last = grind arith

pub one_wait : (i t : ℤ) → i ≤ℤ t → pos 1 *ℤ i ≤ℤ t
unfolding ◌*ℤ◌
one_wait i t h = grind arith

-- A multiple by its parts.
times_parts :
    (n : ℕ) (i : ℤ)
    → pos_part (pos n *ℤ i) + n * neg_part i ≡ neg_part (pos n *ℤ i) + n * pos_part i
unfolding ◌*ℤ◌
times_parts n i = grind arith

pub longer :
    (n m : ℕ) (i a b c : ℤ)
    → pos n *ℤ i ≤ℤ b -ℤ a
    → pos m *ℤ i ≤ℤ c -ℤ b
    → pos (n + m) *ℤ i ≤ℤ c -ℤ a
longer n m i a b c h k =
    let first = times_parts n i in
    let second = times_parts m i in let both = times_parts (n + m) i in grind int_laws
