-- ===== src/FirstFit/Invariant.antt =====
-- The invariant of the heap of Kernel/mm/first_fit.c, at `first_fit_init` and `first_fit_malloc`.
use tp2_kernel.Base.{
  ℕ, ◌+◌, ◌-◌, ◌≤◌, ◌<◌, ◌%◌, ◌^◌, ◌≡◌, true, false, none, some, List, [], ◌∷◌, ◌++◌, All,
  All-append, All-left, All-right, arith, ltb, ◌==◌, if◌then◌else◌, Bool-cases, Option-cases, ◌⊎◌,
  inl, inr, add64,
}
use tp2_kernel.FirstFit.{
  Block, Heap, header_size, min_block_size, block_magic, free_magic, first_fit_init,
  first_fit_malloc, request, find_free_block,
}
use tp2_kernel.FirstFit.Chain.{
  Chain, Chain-le, Chain-append, Chain-split, At, FirstFit, fits, find_free_block-FirstFit,
  find_free_block-none,
}
use tp2_kernel.FirstFit.Coalesce.{Merged}
use tp2_kernel.FirstFit.Malloc.{placed, malloc-Chain}

-- The magic number says whether the block is free.
abbrev pub Sealed : Block → Type 0
Sealed b = b.magic ≡ (if b.is_free then free_magic else block_magic)

abbrev pub Aligned : Block → Type 0
Aligned b = b.addr % 8 ≡ 0

-- What holds of the heap between two calls, once it is initialised.
pub record IsHeap (h : Heap) : Type 0 where
  pub ready : h.initialized ≡ true
  pub nonnull : 0 < h.heap_start
  pub bound : h.heap_end < 2 ^ 64
  pub chain : Chain h.heap_start h.blocks h.heap_end
  pub magics : All Sealed h.blocks
  pub aligned : All Aligned h.blocks
  pub merged : Merged h.blocks
  pub total : h.heap_start + h.total_heap_size ≡ h.heap_end

-- On a region of 39 bytes or more that does not wrap, `first_fit_init` makes a heap.
pub first_fit_init-IsHeap :
    (start total : ℕ) (h : Heap)
    → 0 < start
    → start + total < 2 ^ 64
    → 39 ≤ total
    → IsHeap (first_fit_init start total h)
unfolding first_fit_init
first_fit_init-IsHeap start total h p q r = ground arith

pub request_lem :
    (size : ℕ) → (request size % 8 ≡ 0) × (16 ≤ request size) × (request size < 2 ^ 64)
unfolding request
request_lem size = ground arith

placed-Chain :
    (s m e : ℕ) (b : Block) (post : List Block)
    → fits s b ≡ true
    → Chain m (b ∷ post) e
    → Chain m (placed s b ++ post) e
placed-Chain s m e b post f c =
    elim (Bool-cases (ltb (b.size - s) (header_size + min_block_size))) [
      | inl small ↦ rw small c
      | inr large ↦
          let end_eq : m + header_size + s + header_size + (b.size - s - header_size)
              ≡ m + header_size + b.size =
            ground arith in
          rw large (c.0, (omega arith, rw end_eq c.1))
    ]

placed-Aligned :
    (s : ℕ) (b : Block) (post : List Block)
    → s % 8 ≡ 0
    → All Aligned (b ∷ post)
    → All Aligned (placed s b ++ post)
placed-Aligned s b post e h = ground arith

placed-Sealed :
    (s : ℕ) (b : Block) (post : List Block)
    → All Sealed (b ∷ post)
    → All Sealed (placed s b ++ post)
placed-Sealed s b post h = ground arith

placed-Merged :
    (s : ℕ) (b : Block) (pre post : List Block)
    → b.is_free ≡ true
    → Merged (pre ++ b ∷ post)
    → Merged (pre ++ (placed s b ++ post))
placed-Merged s b [] [] f h = ground arith
placed-Merged s b [] (n ∷ post) f h = ground arith
placed-Merged s b (x ∷ []) post f h = (ground arith, placed-Merged s b [] post f h.1)
placed-Merged s b (x ∷ y ∷ pre) post f h = (h.0, placed-Merged s b (y ∷ pre) post f h.1)

-- The heap after a request is granted in the block `b`, which stands between `pre` and `post`.
abbrev pub grant : Heap → ℕ → List Block → Block → List Block → Heap
grant h size pre b post = record h {
  blocks = pre ++ (placed (request size) b ++ post);
  total_allocations = add64 h.total_allocations 1;
  current_allocated_blocks = add64 h.current_allocated_blocks 1;
}

pub grant-IsHeap :
    (h : Heap) (size : ℕ) (b : Block) (p : At b h.blocks)
    → IsHeap h
    → fits (request size) b ≡ true
    → IsHeap (grant h size p.pre b p.post)
grant-IsHeap h size b p v f =
    let c : Chain h.heap_start (p.pre ++ b ∷ p.post) h.heap_end = rw p.here at v.chain in
    let (m, c₀, c₁) = Chain-split h.heap_start h.heap_end p.pre (b ∷ p.post) c in
    let s : All Sealed (p.pre ++ b ∷ p.post) = rw p.here at v.magics in
    let al : All Aligned (p.pre ++ b ∷ p.post) = rw p.here at v.aligned in
    record {
      ready = v.ready;
      nonnull = v.nonnull;
      bound = v.bound;
      chain =
          Chain-append h.heap_start m h.heap_end p.pre (placed (request size) b ++ p.post) c₀
            (placed-Chain (request size) m h.heap_end b p.post f c₁);
      magics =
          All-append Sealed p.pre _ (All-left Sealed p.pre (b ∷ p.post) s)
            (placed-Sealed (request size) b p.post (All-right Sealed p.pre (b ∷ p.post) s));
      aligned = All-append Aligned p.pre _ (All-left Aligned p.pre (b ∷ p.post) al) (
          placed-Aligned (request size) b p.post (request_lem size).0
            (All-right Aligned p.pre (b ∷ p.post) al));
      total = v.total;
      merged = placed-Merged (request size) b p.pre p.post (ground arith) (rw p.here at v.merged);
    }

-- What `first_fit_malloc` returns when it finds a block.
pub first_fit_malloc-grant :
    (size a : ℕ) (h : Heap) (f : FirstFit (request size) a h.blocks)
    → IsHeap h
    → (size == 0) ≡ false
    → find_free_block (request size) h.blocks ≡ some a
    → first_fit_malloc size h
      ≡ (some (f.block.addr + header_size), grant h size f.place.pre f.block f.place.post)
unfolding first_fit_malloc
first_fit_malloc-grant size a h f v z e =
    let c : Chain h.heap_start (f.place.pre ++ f.block ∷ f.place.post) h.heap_end =
      rw f.place.here at v.chain in
    let (m, c₀, c₁) = Chain-split h.heap_start h.heap_end f.place.pre _ c in
    let far = Chain-le _ f.place.post h.heap_end c₁.1 in
    let chain =
      malloc-Chain (request size) h.heap_start h.heap_end f.place.pre f.place.post f.block f.fit
        v.bound c in
    ground (arith, chain, far)

pub first_fit_malloc-zero : (h : Heap) → first_fit_malloc 0 h ≡ (none, h)
unfolding first_fit_malloc
first_fit_malloc-zero h = ground arith

pub first_fit_malloc-none :
    (size : ℕ) (h : Heap)
    → find_free_block (request size) h.blocks ≡ none
    → first_fit_malloc size h ≡ (none, h)
unfolding first_fit_malloc
first_fit_malloc-none size h e = ground arith

-- A call is refused and changes nothing, or is granted in the first block that fits.
pub data Outcome (size : ℕ) (h : Heap) : Type 0 where
  refused :
      first_fit_malloc size h ≡ (none, h)
      → (size ≡ 0) ⊎ All (λ b. fits (request size) b ≡ false) h.blocks
      → Outcome size h
  granted_at :
      (a : ℕ) (f : FirstFit (request size) a h.blocks)
      → first_fit_malloc size h
        ≡ (some (f.block.addr + header_size), grant h size f.place.pre f.block f.place.post)
      → Outcome size h

pub first_fit_malloc-Outcome : (size : ℕ) (h : Heap) → IsHeap h → Outcome size h
first_fit_malloc-Outcome size h v = elim (Bool-cases (size == 0)) [
  | inl z ↦ let e : size ≡ 0 = ground arith in refused (rw e (first_fit_malloc-zero h)) (inl e)
  | inr z ↦ elim (Option-cases (find_free_block (request size) h.blocks)) [
    | inl e ↦
        refused (first_fit_malloc-none size h e)
          (inr (find_free_block-none (request size) h.blocks e))
    | inr (a, e) ↦
        let f = find_free_block-FirstFit (request size) a h.blocks e in
        granted_at a f (first_fit_malloc-grant size a h f v z e)
  ]
]

Outcome-IsHeap :
    (size : ℕ) (h : Heap) → IsHeap h → Outcome size h → IsHeap (first_fit_malloc size h).1
Outcome-IsHeap size h v (refused e _) = rw e v
Outcome-IsHeap size h v (granted_at a f e) = rw e (grant-IsHeap h size f.block f.place v f.fit)

-- Every call of `first_fit_malloc`, granted or refused, keeps the invariant of the heap.
pub first_fit_malloc-IsHeap : (size : ℕ) (h : Heap) → IsHeap h → IsHeap (first_fit_malloc size h).1
first_fit_malloc-IsHeap size h v = Outcome-IsHeap size h v (first_fit_malloc-Outcome size h v)
