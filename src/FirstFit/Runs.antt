-- ===== src/FirstFit/Runs.antt =====
-- Runs of Kernel/mm/first_fit.c on a heap of 1000 bytes at address 4100.
use tp2_kernel.Base.{
  ℕ, ◌-◌, ◌^◌, ◌≡◌, refl, ◌⊎◌, ◌↔◌, true, false, none, some, List, [], ◌∷◌, All, arith,
}
use tp2_kernel.FirstFit.{
  Block, Heap, first_fit_init, first_fit_malloc, first_fit_free, find_free_block, request, write_at,
  split_block, find_header, rejects, coalesce_blocks,
}
use tp2_kernel.FirstFit.Chain.{fits}
use tp2_kernel.FirstFit.Invariant.{IsHeap, first_fit_init-IsHeap, first_fit_malloc-IsHeap}
use tp2_kernel.FirstFit.RoundTrip.{first_fit_free-IsHeap, malloc_free_round_trip}
use tp2_kernel.FirstFit.Grants.{
  Fresh, first_fit_malloc-Fresh, first_fit_malloc_refuses, first_fit_malloc_wraps,
}
use tp2_kernel.FirstFit.DoubleFree.{first_fit_free_twice}
use tp2_kernel.FirstFit.Stats.{
  MemoryInfo, first_fit_check_integrity, first_fit_check_integrity_iff, Sound,
}

-- The static variables before the first call.
abbrev no_heap : Heap
no_heap = record {
  blocks = [];
  heap_start = 0;
  heap_end = 0;
  total_heap_size = 0;
  initialized = false;
  total_allocations = 0;
  total_frees = 0;
  current_allocated_blocks = 0;
}

abbrev heap_with : List Block → ℕ → ℕ → ℕ → Heap
heap_with bs allocations frees current = record {
  blocks = bs;
  heap_start = 4104;
  heap_end = 5100;
  total_heap_size = 996;
  initialized = true;
  total_allocations = allocations;
  total_frees = frees;
  current_allocated_blocks = current;
}

abbrev all_free : List Block
all_free = record { addr = 4104; size = 964; is_free = true; magic = 0xFEEDFACE } ∷ []

abbrev one_used : List Block
one_used =
    record { addr = 4104; size = 104; is_free = false; magic = 0xDEADBEEF }
    ∷ record { addr = 4240; size = 828; is_free = true; magic = 0xFEEDFACE }
    ∷ []

init_runs : first_fit_init 4100 1000 no_heap ≡ heap_with all_free 0 0 0
unfolding first_fit_init
init_runs = refl

all_free-IsHeap : IsHeap (heap_with all_free 0 0 0)
all_free-IsHeap =
    rw (← init_runs)
      (first_fit_init-IsHeap 4100 1000 no_heap (omega arith) (omega arith) (omega arith))

malloc_runs :
    first_fit_malloc 100 (heap_with all_free 0 0 0) ≡ (some 4136, heap_with one_used 1 0 1)
unfolding first_fit_malloc find_free_block request write_at split_block
malloc_runs = refl

one_used-IsHeap : IsHeap (heap_with one_used 1 0 1)
unfolding first_fit_malloc find_free_block request write_at split_block
one_used-IsHeap = first_fit_malloc-IsHeap 100 (heap_with all_free 0 0 0) all_free-IsHeap

-- Memory that is no block of the chain reads as a free header.
abbrev stale : ℕ → Block
stale a = record { addr = a; size = 0; is_free = true; magic = 0xFEEDFACE }

free_runs : first_fit_free stale 4136 (heap_with one_used 1 0 1) ≡ some (heap_with all_free 1 1 0)
unfolding first_fit_free find_header rejects coalesce_blocks write_at
free_runs = refl

first_fit_init-IsHeap_example : IsHeap (first_fit_init 4100 1000 no_heap)
first_fit_init-IsHeap_example =
    first_fit_init-IsHeap 4100 1000 no_heap (omega arith) (omega arith) (omega arith)

first_fit_malloc-IsHeap_example : IsHeap (first_fit_malloc 100 (heap_with all_free 0 0 0)).1
first_fit_malloc-IsHeap_example =
    first_fit_malloc-IsHeap 100 (heap_with all_free 0 0 0) all_free-IsHeap

first_fit_free-IsHeap_example : IsHeap (heap_with all_free 1 1 0)
first_fit_free-IsHeap_example =
    first_fit_free-IsHeap stale 4136 (heap_with one_used 1 0 1) (heap_with all_free 1 1 0)
      one_used-IsHeap free_runs

malloc_free_round_trip_example :
    (h'' : Heap) × (first_fit_free stale 4136 (heap_with one_used 1 0 1) ≡ some h'')
    × (h''.blocks ≡ all_free)
    × (h''.current_allocated_blocks ≡ 0)
malloc_free_round_trip_example =
    malloc_free_round_trip stale 100 4136 (heap_with all_free 0 0 0) (heap_with one_used 1 0 1)
      all_free-IsHeap (omega arith) malloc_runs

first_fit_malloc-Fresh_example :
    Fresh 100 4136 (heap_with all_free 0 0 0) (heap_with one_used 1 0 1)
first_fit_malloc-Fresh_example =
    first_fit_malloc-Fresh 100 4136 (heap_with all_free 0 0 0) (heap_with one_used 1 0 1)
      all_free-IsHeap (omega arith) malloc_runs

first_fit_malloc_refuses_example :
    (first_fit_malloc 2000 (heap_with one_used 1 0 1) ≡ (none, heap_with one_used 1 0 1))
    ↔ (◌≡◌ {A = ℕ} 2000 0 ⊎ All (λ b. fits (request 2000) b ≡ false) one_used)
first_fit_malloc_refuses_example =
    first_fit_malloc_refuses 2000 (heap_with one_used 1 0 1) one_used-IsHeap

first_fit_malloc_wraps_example :
    first_fit_malloc (2 ^ 64 - 3) (heap_with all_free 0 0 0)
    ≡ first_fit_malloc 16 (heap_with all_free 0 0 0)
first_fit_malloc_wraps_example =
    first_fit_malloc_wraps (2 ^ 64 - 3) (heap_with all_free 0 0 0) (omega arith) (omega arith)

first_fit_free_twice_example :
    first_fit_free stale 4136 (heap_with all_free 1 1 0) ≡ some (heap_with all_free 1 1 0)
first_fit_free_twice_example =
    first_fit_free_twice stale 4136 (heap_with one_used 1 0 1) (heap_with all_free 1 1 0)
      one_used-IsHeap refl free_runs

abbrev no_info : MemoryInfo
no_info = record {
  total_memory = 0;
  used_memory = 0;
  free_memory = 0;
  allocated_blocks = 0;
  free_blocks = 0;
}

first_fit_check_integrity_iff_example :
    (first_fit_check_integrity (heap_with one_used 1 0 1) ≡ true)
    ↔ All (Sound (heap_with one_used 1 0 1)) one_used
first_fit_check_integrity_iff_example =
    first_fit_check_integrity_iff (heap_with one_used 1 0 1) refl
