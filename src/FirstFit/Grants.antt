-- ===== src/FirstFit/Grants.antt =====
-- What a client of `first_fit_malloc` (Kernel/mm/first_fit.c) may rely on.
use tp2_kernel.Base.{
  ℕ, ◌+◌, ◌-◌, ◌≤◌, ◌<◌, ◌%◌, ◌^◌, ◌≡◌, refl, ap, ◌∙◌, true, false, none, some, List, [], ◌∷◌, ◌++◌,
  All, All-right, arith, ltb, Bool-cases, inl, inr, ◌⊎◌, ◌↔◌,
}
use tp2_kernel.FirstFit.{
  Block, Heap, header_size, min_block_size, first_fit_malloc, request, find_free_block,
}
use tp2_kernel.FirstFit.Chain.{Chain, Chain-le, Chain-split, Chain-addr, At, fits}
use tp2_kernel.FirstFit.Coalesce.{used}
use tp2_kernel.FirstFit.Malloc.{placed, granted}
use tp2_kernel.FirstFit.Invariant.{
  IsHeap, Aligned, grant, Outcome, refused, granted_at, first_fit_malloc-Outcome,
  first_fit_malloc-zero, first_fit_malloc-none,
}

pub used-append : (xs ys : List Block) → used (xs ++ ys) ≡ used xs ++ used ys
used-append [] ys = refl
used-append (x ∷ xs) ys = ground (arith, used-append xs ys)

used-placed :
    (s : ℕ) (b : Block) (post : List Block) → used (placed s b ++ post) ≡ granted s b ∷ used post
used-placed s b post = elim (Bool-cases (ltb (b.size - s) (header_size + min_block_size))) [
  | inl t ↦ rw t
  | inr t ↦ rw t
]

-- The block `g` behind `ptr` is the one block in use that `h'` has more than `h`.
pub record Fresh (size ptr : ℕ) (h h' : Heap) : Type 0 where
  pub pre : List Block
  pub post : List Block
  pub g : Block
  pub before : used h.blocks ≡ pre ++ post
  pub after : used h'.blocks ≡ pre ++ g ∷ post
  pub pointer : g.addr + header_size ≡ ptr
  pub aligned : ptr % 8 ≡ 0
  pub enough : size ≤ g.size
  pub inside : (h.heap_start < ptr) × (ptr + g.size ≤ h.heap_end)

request-ge : (size : ℕ) → size + 7 < 2 ^ 64 → size ≤ request size
unfolding request
request-ge size h = ground arith

grant-Fresh :
    (size : ℕ) (h : Heap) (b : Block) (p : At b h.blocks)
    → IsHeap h
    → size + 7 < 2 ^ 64
    → fits (request size) b ≡ true
    → Fresh size (b.addr + header_size) h (grant h size p.pre b p.post)
grant-Fresh size h b p v n f =
    let s = request size in
    let c : Chain h.heap_start (p.pre ++ b ∷ p.post) h.heap_end = rw p.here at v.chain in
    let (m, c₀, c₁) = Chain-split h.heap_start h.heap_end p.pre (b ∷ p.post) c in
    let low = Chain-addr h.heap_start h.heap_end p.pre p.post b c in
    let high = Chain-le (m + header_size + b.size) p.post h.heap_end c₁.1 in
    let al : All Aligned (p.pre ++ b ∷ p.post) = rw p.here at v.aligned in
    let al_b : Aligned b = (All-right Aligned p.pre (b ∷ p.post) al).0 in
    record {
      pre = used p.pre;
      post = used p.post;
      g = granted s b;
      before =
          ap used p.here ∙ used-append p.pre (b ∷ p.post) ∙ ap (◌++◌ (used p.pre)) (ground arith);
      after =
          used-append p.pre (placed s b ++ p.post)
          ∙ ap (◌++◌ (used p.pre)) (used-placed s b p.post);
      pointer = refl;
      aligned = omega arith;
      enough = ground (arith, request-ge size n);
      inside = ground arith;
    }

-- A pointer that `first_fit_malloc` returns is aligned to 8 bytes and lies in the heap with at
-- least `size` bytes behind it, in a block that the chain of blocks in use did not have before and
-- is all that is new in it. Sizes within 7 of 2^64 are excluded, since their rounding wraps.
pub first_fit_malloc-Fresh :
    (size ptr : ℕ) (h h' : Heap)
    → IsHeap h
    → size + 7 < 2 ^ 64
    → first_fit_malloc size h ≡ (some ptr, h')
    → Fresh size ptr h h'
first_fit_malloc-Fresh size ptr h h' v n e = fresh (first_fit_malloc-Outcome size h v)
  where
    fresh : Outcome size h → Fresh size ptr h h'
    fresh (refused r _) = absurd (ground arith)
    fresh (granted_at a f r) =
        let same_heap : grant h size f.place.pre f.block f.place.post ≡ h' = cc in
        let same_ptr : f.block.addr + header_size ≡ ptr = ground arith in
        rw (← same_heap, ← same_ptr) (grant-Fresh size h f.block f.place v n f.fit)

find_free_block-eq-none :
    (size : ℕ) (bs : List Block)
    → All (λ c. fits size c ≡ false) bs
    → find_free_block size bs ≡ none
unfolding find_free_block
find_free_block-eq-none size [] h = refl
find_free_block-eq-none size (b ∷ bs) h = rw h.0 (find_free_block-eq-none size bs h.1)

-- On a well-formed heap `first_fit_malloc` refuses, with nothing changed, exactly a request of no bytes and
-- one whose size as it is looked for, rounded up to 8 on 64 bits and at least 16, no free block holds.
pub first_fit_malloc_refuses :
    (size : ℕ) (h : Heap)
    → IsHeap h
    → (first_fit_malloc size h ≡ (none, h))
      ↔ ((size ≡ 0) ⊎ All (λ b. fits (request size) b ≡ false) h.blocks)
first_fit_malloc_refuses size h v = (λ e. only e (first_fit_malloc-Outcome size h v), refuse)
  where
    only :
        first_fit_malloc size h ≡ (none, h)
        → Outcome size h
        → (size ≡ 0) ⊎ All (λ b. fits (request size) b ≡ false) h.blocks
    only e (refused _ why) = why
    only e (granted_at a f r) = absurd (ground arith)

    refuse :
        (size ≡ 0) ⊎ All (λ b. fits (request size) b ≡ false) h.blocks
        → first_fit_malloc size h ≡ (none, h)
    refuse (inl z) = rw z (first_fit_malloc-zero h)
    refuse (inr f) =
        first_fit_malloc-none size h (find_free_block-eq-none (request size) h.blocks f)

-- A request within 7 bytes of 2^64 wraps in the rounding and is served as one of 16 bytes.
pub first_fit_malloc_wraps :
    (size : ℕ) (h : Heap)
    → 2 ^ 64 ≤ size + 7
    → size < 2 ^ 64
    → first_fit_malloc size h ≡ first_fit_malloc 16 h
unfolding first_fit_malloc request
first_fit_malloc_wraps size h p q = ground arith
