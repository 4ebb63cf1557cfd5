-- ===== src/FirstFit/Stats.antt =====
-- The reports of Kernel/mm/first_fit.c on its chain: `first_fit_get_info` and
-- `first_fit_check_integrity`.
use tp2_kernel.Base.{
  ℕ, ◌+◌, ◌<◌, ◌^◌, ◌-◌, ◌≡◌, refl, ◌∙◌, Bool, true, false, not, ◌||◌, List, [], ◌∷◌, All, arith,
  ltb, leb, ◌==◌, if◌then◌else◌, add64, ◌↔◌,
}
use tp2_kernel.FirstFit.{Block, Heap, header_size, free_magic, block_magic}
use tp2_kernel.FirstFit.Chain.{Chain, Chain-le}
use tp2_kernel.FirstFit.Invariant.{IsHeap, Sealed}

-- `memory_info_t` of Kernel/include/memory_manager.h.
pub record MemoryInfo : Type 0 where
  pub total_memory : ℕ
  pub used_memory : ℕ
  pub free_memory : ℕ
  pub allocated_blocks : ℕ
  pub free_blocks : ℕ

-- One round of the loop of `first_fit_get_info`.
pub add_block : Block → MemoryInfo → MemoryInfo
add_block b i =
    if b.is_free
    then record i {
      used_memory = add64 i.used_memory header_size;
      free_memory = add64 i.free_memory b.size;
      free_blocks = add64 i.free_blocks 1;
    }
    else record i {
      used_memory = add64 (add64 i.used_memory b.size) header_size;
      allocated_blocks = add64 i.allocated_blocks 1;
    }

pub get_info_loop : List Block → MemoryInfo → MemoryInfo
get_info_loop [] i = i
get_info_loop (b ∷ bs) i = get_info_loop bs (add_block b i)

-- The caller's record is left alone before `first_fit_init`.
pub first_fit_get_info : Heap → MemoryInfo → MemoryInfo
unfolding get_info_loop add_block
first_fit_get_info h info =
    if not h.initialized
    then info
    else get_info_loop h.blocks (record {
      total_memory = h.total_heap_size;
      used_memory = 0;
      free_memory = 0;
      allocated_blocks = 0;
      free_blocks = 0;
    })

add_block_sum :
    (b : Block) (i : MemoryInfo)
    → i.used_memory + i.free_memory + header_size + b.size < 2 ^ 64
    → ((add_block b i).used_memory + (add_block b i).free_memory
        ≡ i.used_memory + i.free_memory + header_size + b.size)
      × ((add_block b i).total_memory ≡ i.total_memory)
unfolding add_block
add_block_sum b i h = ground arith

get_info_loop_sum :
    (a e : ℕ) (bs : List Block) (i : MemoryInfo)
    → Chain a bs e
    → i.used_memory + i.free_memory + (e - a) < 2 ^ 64
    → ((get_info_loop bs i).used_memory + (get_info_loop bs i).free_memory + a
        ≡ i.used_memory + i.free_memory + e)
      × ((get_info_loop bs i).total_memory ≡ i.total_memory)
unfolding get_info_loop
get_info_loop_sum a e [] i c h = (omega arith, refl)
get_info_loop_sum a e (b ∷ bs) i c h =
    let far = Chain-le (a + header_size + b.size) bs e c.1 in
    let one = add_block_sum b i (omega arith) in
    let rest =
      get_info_loop_sum (a + header_size + b.size) e bs (add_block b i) c.1 (omega arith) in
    (omega arith, rest.1 ∙ one.1)

-- The two sums that `first_fit_get_info` reports add up to the size of the heap, headers counted
-- as used.
pub first_fit_get_info_total :
    (h : Heap) (info : MemoryInfo)
    → IsHeap h
    → (first_fit_get_info h info).used_memory + (first_fit_get_info h info).free_memory
      ≡ (first_fit_get_info h info).total_memory
unfolding first_fit_get_info
first_fit_get_info_total h info v =
    let zero_info : MemoryInfo = record {
      total_memory = h.total_heap_size;
      used_memory = 0;
      free_memory = 0;
      allocated_blocks = 0;
      free_blocks = 0;
    } in
    let sums = get_info_loop_sum h.heap_start h.heap_end h.blocks zero_info v.chain (omega arith) in
    rw v.ready (omega arith)

-- `(char*)b < (char*)heap_start || (char*)b >= (char*)heap_end`.
abbrev pub outside : Heap → ℕ → Bool
outside h a = ltb a h.heap_start || leb h.heap_end a

abbrev pub expected_magic : Block → ℕ
expected_magic b = if b.is_free then free_magic else block_magic

-- The check of `current->next`.
pub next_error : Heap → List Block → ℕ
next_error h [] = 0
next_error h (n ∷ bs) = if outside h n.addr then 1 else 0

-- `errors` after the loop of `first_fit_check_integrity`.
pub integrity_errors : Heap → List Block → ℕ
unfolding next_error
integrity_errors h [] = 0
integrity_errors h (b ∷ bs) =
    let rest = integrity_errors h bs in
    let magic_error = if b.magic == expected_magic b then 0 else 1 in
    if outside h b.addr then magic_error + 1 else magic_error + next_error h bs + rest

pub first_fit_check_integrity : Heap → Bool
unfolding integrity_errors
first_fit_check_integrity h = if not h.initialized then false else integrity_errors h h.blocks == 0

-- What the check looks for in a block.
abbrev pub Sound : Heap → Block → Type 0
Sound h b = Sealed b × (outside h b.addr ≡ false)

errors-Sound : (h : Heap) (bs : List Block) → integrity_errors h bs ≡ 0 → All (Sound h) bs
unfolding integrity_errors
errors-Sound h [] e = tt
errors-Sound h (b ∷ bs) e = ((ground arith, ground arith), errors-Sound h bs (ground arith))

next_error-eq-zero : (h : Heap) (bs : List Block) → All (Sound h) bs → next_error h bs ≡ 0
unfolding next_error
next_error-eq-zero h [] a = refl
next_error-eq-zero h (b ∷ bs) a = ground arith

Sound-errors : (h : Heap) (bs : List Block) → All (Sound h) bs → integrity_errors h bs ≡ 0
unfolding integrity_errors
Sound-errors h [] a = refl
Sound-errors h (b ∷ bs) a = ground (arith, next_error-eq-zero h bs a.1, Sound-errors h bs a.1)

-- On an initialized heap `first_fit_check_integrity` answers 1 exactly if every block of the chain
-- carries the magic number of its state and lies in the heap.
pub first_fit_check_integrity_iff :
    (h : Heap)
    → h.initialized ≡ true
    → (first_fit_check_integrity h ≡ true) ↔ All (Sound h) h.blocks
unfolding first_fit_check_integrity
first_fit_check_integrity_iff h r =
    (λ e. errors-Sound h h.blocks (ground arith), λ a. ground (arith, Sound-errors h h.blocks a))
