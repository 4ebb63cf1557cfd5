-- ===== src/Buddy/Oversize.antt =====
-- Sizes that are larger than every block of Kernel/mm/buddy_system.c.
use tp2_kernel.Base.{
  ℕ, ◌+◌, ◌-◌, ◌^◌, ◌≤◌, ◌<◌, ◌≡◌, refl, true, false, Option, some, arith, ltb, ◌==◌, ==_self,
}
use tp2_kernel.Buddy.{Buddy, min_order, take_block, divide, grant_block, buddy_alloc}
use tp2_kernel.Buddy.Orders.{size_to_order-max}

take_block_one :
    (n order idx : ℕ) (lists : ℕ → Option ℕ)
    → n ≡ 1
    → lists order ≡ some idx
    → take_block n order lists ≡ some (order, idx)
unfolding take_block
take_block_one n order idx lists e h = rw (e, take_block, h) refl

grant_block_whole :
    (order idx : ℕ) (b : Buddy)
    → let b' = grant_block order order idx b in
      (b'.order_map idx ≡ order) × (b'.used_map idx ≡ true)
unfolding grant_block divide
grant_block_whole order idx b =
    let none_over : order - order ≡ 0 = omega arith in rw (none_over, ==_self idx) (refl, refl)

-- A size above that of the largest block is not refused while such a block is free: `buddy_alloc` grants
-- the first free block of the maximal order, which is too small.
pub buddy_alloc_oversize :
    (size idx : ℕ) (b : Buddy)
    → b.initialized ≡ true
    → min_order ≤ b.max_order
    → 2 ^ b.max_order < size
    → b.free_lists b.max_order ≡ some idx
    → let (block, b') = buddy_alloc size b in
      (block ≡ some idx) × (b'.order_map idx ≡ b.max_order) × (b'.used_map idx ≡ true)
unfolding buddy_alloc
buddy_alloc_oversize size idx b i h big at =
    let top = size_to_order-max size b h big in
    let some_size : (size == 0) ≡ false = ground (arith, big) in
    let allowed : ltb b.max_order b.max_order ≡ false = ground arith in
    let one : b.max_order + 1 - b.max_order ≡ 1 = omega arith in
    let found =
      take_block_one (b.max_order + 1 - b.max_order) b.max_order idx b.free_lists one at in
    let whole = grant_block_whole b.max_order idx b in
    rw (i, buddy_alloc, top, some_size, allowed, found) (rw top (refl, whole.0, whole.1))
