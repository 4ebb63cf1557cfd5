-- ===== src/Buddy.antt =====
-- Kernel/mm/buddy_system.c: the buddy allocator, on a region that `buddy_init` has set up.
-- A block is the index of its first page in the region. A free list is kept in the first bytes of its
-- blocks: `next` is what those bytes of a page say, whichever list the page is on. A walk through a list
-- is given the number of blocks it visits at most, and is `none` when the list is longer, or a circle.
-- What a process writes into its pages is a change of `next` between two calls. `buddy_init` is not
-- modelled.
pub mod Orders
pub mod Lists
pub mod Oversize
mod Runs
use tp2_kernel.Base.{
  ℕ, zero, suc, ◌+◌, ◌-◌, ◌*◌, ◌/◌, ◌%◌, ◌^◌, Bool, true, false, not, ◌&&◌, ◌||◌, Option, none,
  some, List, [], ◌∷◌, ltb, leb, ◌==◌, if◌then◌else◌, update, length, count,
}
use tp2_kernel.Base.Linked.{walk}

-- BUDDY_PAGE_SHIFT and BUDDY_MIN_ORDER
abbrev pub min_order : ℕ
min_order = 12

abbrev pub page_size : ℕ
page_size = 4096

-- The static variables of buddy_system.c. `order_map` 255 marks a page that is no head of a block; the
-- statistics count blocks and bytes of the region.
pub record Buddy : Type 0 where
  pub free_lists : ℕ → Option ℕ
  pub next : ℕ → Option ℕ
  pub order_map : ℕ → ℕ
  pub used_map : ℕ → Bool
  pub region_base : ℕ
  pub region_end : ℕ
  pub max_order : ℕ
  pub initialized : Bool
  pub stat_total : ℕ
  pub stat_used : ℕ
  pub stat_alloc_blocks : ℕ
  pub stat_free_blocks : ℕ

abbrev pub ptr_to_index : ℕ → Buddy → ℕ
ptr_to_index p b = (p - b.region_base) / page_size

abbrev pub index_to_ptr : ℕ → Buddy → ℕ
index_to_ptr idx b = b.region_base + idx * page_size

-- The loop of `size_to_order`, with `n` orders left below the maximum.
pub order_from : ℕ → ℕ → ℕ → ℕ → ℕ
order_from zero order block size = order
order_from (suc n) order block size =
    let next = order_from n (order + 1) (block * 2) size in if ltb block size then next else order

pub size_to_order : ℕ → Buddy → ℕ
unfolding order_from
size_to_order size b =
    if size == 0 then min_order else order_from (b.max_order - min_order) min_order page_size size

-- `idx ^ block_size`, where `block_size` is a power of 2: one bit of the index turned over.
pub buddy_index : ℕ → ℕ → ℕ
buddy_index idx order =
    let size = 2 ^ (order - min_order) in if idx / size % 2 == 0 then idx + size else idx - size

pub add_to_free_list : ℕ → ℕ → Buddy → Buddy
add_to_free_list idx order b = record b {
  next = update b.next idx (b.free_lists order);
  free_lists = update b.free_lists order (some idx);
  stat_free_blocks = b.stat_free_blocks + 1;
}

-- `*current = target`, where `current` is the head of a list or the `next` of a block.
abbrev pub relink : ℕ → Option ℕ → Option ℕ → Buddy → Buddy
relink order none target b = record b { free_lists = update b.free_lists order target }
relink order (some p) target b = record b { next = update b.next p target }

-- `remove_from_free_list`: whether the block was found.
pub remove_from_free_list : ℕ → ℕ → ℕ → Buddy → Option (Bool × Buddy)
unfolding walk
remove_from_free_list fuel idx order b =
    elim (walk (λ c. c == idx) fuel none (b.free_lists order) b.next) [
      | none ↦ none
      | some (prev, found) ↦ elim found [
        | none ↦ some (false, b)
        | some c ↦
            let b' = relink order prev (b.next c) b in
            some (true, record b' { stat_free_blocks = b'.stat_free_blocks - 1 })
      ]
    ]

-- The head of a block: its order, and whether it is used.
abbrev pub set_maps : ℕ → ℕ → Bool → Buddy → Buddy
set_maps idx order used b = record b {
  order_map = update b.order_map idx order;
  used_map = update b.used_map idx used;
}

-- The search for a list that is not empty, over the `n` orders from `order` up: the order and the first
-- block of its list.
pub take_block : ℕ → ℕ → (ℕ → Option ℕ) → Option (ℕ × ℕ)
take_block zero order lists = none
take_block (suc n) order lists = elim (lists order) [
  | none ↦ take_block n (order + 1) lists
  | some idx ↦ some (order, idx)
]

-- The loop that divides the block `idx`, `n` orders above the one that is needed.
pub divide : ℕ → ℕ → ℕ → Buddy → Buddy
unfolding buddy_index add_to_free_list
divide zero order idx b = b
divide (suc n) order idx b =
    let current = order + n in
    let other = buddy_index idx (current + 1) in
    divide n order idx (add_to_free_list other current (set_maps other current false b))

-- The block taken, divided and marked.
pub grant_block : ℕ → ℕ → ℕ → Buddy → Buddy
unfolding divide
grant_block order found idx b =
    let b₁ = record b {
      free_lists = update b.free_lists found (b.next idx);
      stat_free_blocks = b.stat_free_blocks - 1;
    } in
    let b₂ = set_maps idx order true (divide (found - order) order idx b₁) in
    record b₂ { stat_used = b₂.stat_used + 2 ^ order; stat_alloc_blocks = b₂.stat_alloc_blocks + 1 }

-- `buddy_alloc`: the index of the block, `none` for NULL.
pub buddy_alloc : ℕ → Buddy → Option ℕ × Buddy
unfolding size_to_order take_block grant_block
buddy_alloc size b =
    let order = size_to_order size b in
    if not b.initialized || (size == 0 || ltb b.max_order order)
    then (none, b)
    else elim (take_block (b.max_order + 1 - order) order b.free_lists) [
      | none ↦ (none, b)
      | some (found, idx) ↦ (some idx, grant_block order found idx b)
    ]

abbrev pub region_pages : Buddy → ℕ
region_pages b = (b.region_end - b.region_base) / page_size

-- What the loop that joins blocks leaves: the block and its order.
pub record Joined : Type 0 where
  pub idx : ℕ
  pub order : ℕ
  pub state : Buddy

-- One round of that loop with the buddy taken off its list.
abbrev pub join : ℕ → ℕ → ℕ → Buddy → Joined
join idx other order b =
    let low = if ltb other idx then other else idx in
    record {
      idx = low;
      order = order + 1;
      state = record b { order_map = update b.order_map low (order + 1) };
    }

-- The loop, with `n` orders left below the maximum.
pub join_from : ℕ → ℕ → ℕ → ℕ → Buddy → Option Joined
unfolding buddy_index remove_from_free_list
join_from fuel zero idx order b = some (record { idx = idx; order = order; state = b })
join_from fuel (suc n) idx order b =
    let other = buddy_index idx order in
    let here : Joined = record { idx = idx; order = order; state = b } in
    if leb (region_pages b) other || (not (b.order_map other == order) || b.used_map other)
    then some here
    else elim (remove_from_free_list fuel other order b) [
      | none ↦ none
      | some (removed, b') ↦
          let j = join idx other order b' in
          if removed then join_from fuel n j.idx j.order j.state else some here
    ]

-- `buddy_free` of a pointer, 0 for NULL.
pub buddy_free : ℕ → ℕ → Buddy → Option Buddy
unfolding join_from add_to_free_list
buddy_free fuel ptr b =
    let idx = ptr_to_index ptr b in
    let order = b.order_map idx in
    let b₁ = record b {
      used_map = update b.used_map idx false;
      stat_used = b.stat_used - 2 ^ order;
      stat_alloc_blocks = b.stat_alloc_blocks - 1;
    } in
    if not b.initialized || (ptr == 0 || (ltb ptr b.region_base || leb b.region_end ptr))
    then some b
    else if order == 0xFF || not (b.used_map idx)
    then some b
    else elim (join_from fuel (b.max_order - order) idx order b₁) [
      | none ↦ none
      | some j ↦ some (add_to_free_list j.idx j.order j.state)
    ]

-- The blocks of one list, counted in `buddy_check_integrity`.
pub count_list : ℕ → Option ℕ → (ℕ → Option ℕ) → Option ℕ
count_list zero none next = some 0
count_list zero (some c) next = none
count_list (suc n) none next = some 0
count_list (suc n) (some c) next = elim (count_list n (next c) next) [
  | none ↦ none
  | some k ↦ some (k + 1)
]

-- Its loop over the `n` orders from `order` up.
pub count_free : ℕ → ℕ → ℕ → Buddy → Option ℕ
unfolding count_list
count_free fuel zero order b = some 0
count_free fuel (suc n) order b = elim (count_list fuel (b.free_lists order) b.next) [
  | none ↦ none
  | some k ↦ elim (count_free fuel n (order + 1) b) [ none ↦ none | some rest ↦ some (k + rest) ]
]

pub buddy_check_integrity : ℕ → Buddy → Option Bool
unfolding count_free
buddy_check_integrity fuel b =
    if not b.initialized
    then some false
    else elim (count_free fuel (b.max_order + 1 - min_order) min_order b) [
      | none ↦ none
      | some counted ↦ some (counted == b.stat_free_blocks)
    ]

-- `memory_info_t`
pub record BuddyInfo : Type 0 where
  pub total_memory : ℕ
  pub used_memory : ℕ
  pub free_memory : ℕ
  pub allocated_blocks : ℕ
  pub free_blocks : ℕ

-- `buddy_get_info`, which writes nothing before the region is set up.
pub buddy_get_info : Buddy → Option BuddyInfo
buddy_get_info b =
    if not b.initialized
    then none
    else some (record {
      total_memory = b.stat_total;
      used_memory = b.stat_used;
      free_memory = b.stat_total - b.stat_used;
      allocated_blocks = b.stat_alloc_blocks;
      free_blocks = b.stat_free_blocks;
    })
