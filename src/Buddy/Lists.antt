-- ===== src/Buddy/Lists.antt =====
-- The free lists of Kernel/mm/buddy_system.c, which are linked through the pages of their blocks.
use tp2_kernel.Base.{ℕ, ◌-◌, ◌≡◌, refl, List, ◌∷◌, ◌==◌, ==_self, if◌then◌else◌, count}
use tp2_kernel.Base.Linked.{Linked, Linked-update, remove_first}
use tp2_kernel.Buddy.{Buddy, add_to_free_list}

-- The free list of an order has these blocks, in this order.
abbrev pub Listed : ℕ → List ℕ → Buddy → Type 0
Listed order l b = Linked b.next (b.free_lists order) l

-- A block that is on no list goes to the front of one.
pub add_to_free_list-Listed :
    (idx order : ℕ) (b : Buddy) (l : List ℕ)
    → Listed order l b
    → count idx l ≡ 0
    → Listed order (idx ∷ l) (add_to_free_list idx order b)
unfolding add_to_free_list
add_to_free_list-Listed idx order b l h z =
    rw (==_self order, ==_self idx)
      (refl, Linked-update b.next (b.free_lists order) l idx (b.free_lists order) z h)

-- What `remove_from_free_list` of a block makes of a list.
pub record Removed (idx order : ℕ) (l : List ℕ) (b b' : Buddy) : Type 0 where
  pub listed : Listed order (remove_first (λ c. c == idx) l) b'
  pub counted : b'.stat_free_blocks ≡ b.stat_free_blocks - (if count idx l == 0 then 0 else 1)
