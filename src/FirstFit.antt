-- ===== src/FirstFit.antt =====
-- Kernel/mm/first_fit.c and Kernel/include/first_fit.h: the first-fit allocator.
-- The chain of `memory_block_t` from `heap_start` along `next` is a list of blocks with their
-- addresses; `next` of a block is the address of the one behind it.
mod Runs
pub mod Chain
pub mod DoubleFree
pub mod Stats
pub mod Grants
pub mod RoundTrip
pub mod Free
pub mod Invariant
pub mod Malloc
pub mod Coalesce
use tp2_kernel.Base.{
  ℕ, ◌+◌, ◌*◌, ◌/◌, Bool, true, false, not, ◌&&◌, ◌||◌, Option, none, some, List, [], ◌∷◌, ◌++◌,
  ltb, leb, ◌==◌, if◌then◌else◌, add64, sub64,
}

pub record Block : Type 0 where
  pub addr : ℕ
  pub size : ℕ
  pub is_free : Bool
  pub magic : ℕ

pub record Heap : Type 0 where
  pub blocks : List Block
  pub heap_start : ℕ
  pub heap_end : ℕ
  pub total_heap_size : ℕ
  pub initialized : Bool
  pub total_allocations : ℕ
  pub total_frees : ℕ
  pub current_allocated_blocks : ℕ

abbrev pub block_magic : ℕ
block_magic = 0xDEADBEEF

abbrev pub free_magic : ℕ
free_magic = 0xFEEDFACE

abbrev pub min_block_size : ℕ
min_block_size = 16

-- sizeof(memory_block_t) with the alignment of x86-64: 8 + 4 (+ 4) + 8 + 4 (+ 4).
abbrev pub header_size : ℕ
header_size = 32

-- `(x + 7) & ~7` on 64 bits.
abbrev pub align8 : ℕ → ℕ
align8 x = add64 x 7 / 8 * 8

pub first_fit_init : ℕ → ℕ → Heap → Heap
first_fit_init start_addr total_size h =
    if start_addr == 0 || ltb total_size header_size
    then h
    else let aligned = align8 start_addr in
      let adjusted = sub64 total_size (sub64 aligned start_addr) in
      record {
        blocks =
            record {
              addr = aligned;
              size = sub64 adjusted header_size;
              is_free = true;
              magic = free_magic;
            }
            ∷ [];
        heap_start = aligned;
        heap_end = add64 aligned adjusted;
        total_heap_size = adjusted;
        initialized = true;
        total_allocations = 0;
        total_frees = 0;
        current_allocated_blocks = 0;
      }

-- The address of the first free block that is large enough.
pub find_free_block : ℕ → List Block → Option ℕ
find_free_block size [] = none
find_free_block size (b ∷ bs) =
    if b.is_free && leb size b.size then some b.addr else find_free_block size bs

-- The block at an address, changed in place or by the blocks that stand there instead.
pub write_at : ℕ → (Block → List Block) → List Block → List Block
write_at a f [] = []
write_at a f (b ∷ bs) = if b.addr == a then f b ++ bs else b ∷ write_at a f bs

-- What `split_block` makes of the block it is given.
pub split : ℕ → Block → List Block
split size b =
    if not b.is_free
    then b ∷ []
    else if ltb (sub64 b.size size) (header_size + min_block_size)
    then b ∷ []
    else record b { size = size }
      ∷ record {
        addr = add64 (add64 b.addr header_size) size;
        size = sub64 (sub64 b.size size) header_size;
        is_free = true;
        magic = free_magic;
      }
      ∷ []

pub split_block : ℕ → ℕ → List Block → List Block
unfolding split write_at
split_block a size bs = write_at a (split size) bs

-- `block->is_free = 0; block->magic = BLOCK_MAGIC;`
abbrev pub mark_used : Block → List Block
mark_used b = record b { is_free = false; magic = block_magic } ∷ []

abbrev pub mark_free : Block → List Block
mark_free b = record b { is_free = true; magic = free_magic } ∷ []

-- The size that `first_fit_malloc` looks for: rounded up to 8 bytes, and 16 at least.
pub request : ℕ → ℕ
request size = if ltb (align8 size) min_block_size then min_block_size else align8 size

-- The null pointer is `none`.
pub first_fit_malloc : ℕ → Heap → Option ℕ × Heap
first_fit_malloc size h =
    if not h.initialized || size == 0
    then (none, h)
    else elim (find_free_block (request size) h.blocks) [
      | none ↦ (none, h)
      | some a ↦ (
        some (add64 a header_size),
        record h {
          blocks = write_at a mark_used (split_block a (request size) h.blocks);
          total_allocations = add64 h.total_allocations 1;
          current_allocated_blocks = add64 h.current_allocated_blocks 1;
        },
      )
    ]

-- The two blocks can be joined: both free, and the second starts where the first ends.
abbrev pub joins : Block → Block → Bool
joins c n = c.is_free && (n.is_free && (add64 (add64 c.addr header_size) c.size == n.addr))

-- The loop of `coalesce_blocks` from `current` on; a block that was joined is looked at again.
pub coalesce_from : Block → List Block → List Block
coalesce_from c [] = c ∷ []
coalesce_from c (n ∷ bs) =
    let joined : Block = record c { size = add64 c.size (add64 header_size n.size) } in
    let rest = coalesce_from (if joins c n then joined else n) bs in
    if joins c n then rest else c ∷ rest

pub coalesce_blocks : List Block → List Block
unfolding coalesce_from
coalesce_blocks [] = []
coalesce_blocks (b ∷ bs) = coalesce_from b bs

-- The address of the header of a pointer that is not NULL.
abbrev pub get_block_header : ℕ → ℕ
get_block_header ptr = sub64 ptr header_size

-- What is read through a pointer to a header: the block of the chain at the address, if there is one.
pub find_header : ℕ → List Block → Option Block
find_header a [] = none
find_header a (b ∷ bs) = if b.addr == a then some b else find_header a bs

-- What `first_fit_free` refuses of a header read at `a`.
pub rejects : Heap → ℕ → ℕ → Bool → Bool
rejects h a magic is_free =
    not (magic == block_magic) || (is_free || (ltb a h.heap_start || leb h.heap_end a))

-- `first_fit_free(ptr)`. At an address that is no block of the chain the header is whatever memory
-- holds there, `foreign`; `none` is the damage that a forged header does there.
pub first_fit_free : (ℕ → Block) → ℕ → Heap → Option Heap
first_fit_free foreign ptr h =
    if not h.initialized || ptr == 0
    then some h
    else let a = get_block_header ptr in
      elim (find_header a h.blocks) [
        | none ↦ if rejects h a (foreign a).magic (foreign a).is_free then some h else none
        | some b ↦
            if rejects h a b.magic b.is_free
            then some h
            else some (record h {
              blocks = coalesce_blocks (write_at a mark_free h.blocks);
              total_frees = add64 h.total_frees 1;
              current_allocated_blocks = sub64 h.current_allocated_blocks 1;
            })
      ]
