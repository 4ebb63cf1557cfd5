-- ===== src/FirstFit/RoundTrip.antt =====
-- Whole calls of Kernel/mm/first_fit.c: `first_fit_free` on any pointer, and after a
-- `first_fit_malloc`.
use tp2_kernel.Base.{
  ℕ, ◌+◌, ◌-◌, ◌<◌, ◌^◌, ◌≡◌, refl, ap, sym, ◌∙◌, true, false, ◌||◌, some, List, ◌∷◌, ◌++◌, All,
  All-right, arith, ltb, ◌==◌, Bool-cases, Option-cases, inl, inr, sub64,
}
use tp2_kernel.FirstFit.{
  Block, Heap, header_size, min_block_size, free_magic, first_fit_malloc, first_fit_free, request,
  write_at, find_header, mark_free, coalesce_blocks, rejects, joins,
}
use tp2_kernel.FirstFit.Chain.{
  Chain, Chain-le, Chain-split, write_at-append, At, fits, find_header-At,
}
use tp2_kernel.FirstFit.Coalesce.{Merged, joined, coalesce_blocks_pair, coalesce_blocks_id}
use tp2_kernel.FirstFit.Malloc.{leftover, granted, remainder}
use tp2_kernel.FirstFit.Invariant.{
  IsHeap, Sealed, grant, grant-IsHeap, Outcome, refused, granted_at, first_fit_malloc-Outcome,
}
use tp2_kernel.FirstFit.Free.{freed, release, release-IsHeap, first_fit_free-release}

-- `first_fit_free` of a pointer leaves the heap alone or releases one block in use.
pub data Freed (ptr : ℕ) (h h' : Heap) : Type 0 where
  ignored : h' ≡ h → Freed ptr h h'
  released :
      (b : Block) (p : At b h.blocks)
      → b.addr ≡ sub64 ptr header_size
      → b.is_free ≡ false
      → h' ≡ release h p.pre b p.post
      → Freed ptr h h'

pub first_fit_free-Freed :
    (foreign : ℕ → Block) (ptr : ℕ) (h h' : Heap)
    → IsHeap h
    → first_fit_free foreign ptr h ≡ some h'
    → Freed ptr h h'
unfolding first_fit_free rejects
first_fit_free-Freed foreign ptr h h' v e =
    let a = sub64 ptr header_size in
    elim (Option-cases (find_header a h.blocks)) [
      | inl n ↦ ignored (ground arith)
      | inr (b, n) ↦
          let (p, q) = find_header-At a h.blocks b n in
          let c : Chain h.heap_start (p.pre ++ b ∷ p.post) h.heap_end = rw p.here at v.chain in
          elim (Bool-cases (ptr == 0 || rejects h a b.magic b.is_free)) [
            | inl t ↦ ignored (ground arith)
            | inr t ↦
                let busy : b.is_free ≡ false = ground arith in
                let written : write_at a mark_free h.blocks ≡ p.pre ++ freed b ∷ p.post =
                  rw (← q, p.here)
                    (write_at-append mark_free h.heap_start h.heap_end p.pre p.post b c) in
                released b p q busy (ground (arith, written))
          ]
    ]

Freed-IsHeap : (ptr : ℕ) (h h' : Heap) → IsHeap h → Freed ptr h h' → IsHeap h'
Freed-IsHeap ptr h h' v (ignored e) = rw e v
Freed-IsHeap ptr h h' v (released b p q busy e) = rw e (release-IsHeap h b p v)

-- `first_fit_free` keeps the invariant of the heap, whatever pointer it is given.
pub first_fit_free-IsHeap :
    (foreign : ℕ → Block) (ptr : ℕ) (h h' : Heap)
    → IsHeap h
    → first_fit_free foreign ptr h ≡ some h'
    → IsHeap h'
first_fit_free-IsHeap foreign ptr h h' v e =
    Freed-IsHeap ptr h h' v (first_fit_free-Freed foreign ptr h h' v e)

-- What a grant leaves is joined back into the block that it was taken from.
coalesce_placed :
    (s a e : ℕ) (pre post : List Block) (b : Block)
    → e < 2 ^ 64
    → fits s b ≡ true
    → Sealed b
    → Chain a (pre ++ b ∷ post) e
    → Merged (pre ++ b ∷ post)
    → coalesce_blocks (pre ++ freed (granted s b) ∷ (leftover s b ++ post)) ≡ pre ++ b ∷ post
coalesce_placed s a e pre post b h f sl c m =
    let (k, c₀, c₁) = Chain-split a e pre (b ∷ post) c in
    let far = Chain-le (k + header_size + b.size) post e c₁.1 in
    elim (Bool-cases (ltb (b.size - s) (header_size + min_block_size))) [
      | inl t ↦
          let same : freed (granted s b) ≡ b = ground (arith, t) in
          rw t (
            rw t at (ap (λ x. coalesce_blocks (pre ++ x ∷ post)) same)
            ∙ coalesce_blocks_id (pre ++ b ∷ post) m)
      | inr t ↦
          let part : Block = record {
            addr = b.addr;
            size = s;
            is_free = true;
            magic = free_magic;
          } in
          let whole : joined part (remainder s b) ≡ b = ground arith in
          let touch : joins part (remainder s b) ≡ true = ground arith in
          rw t (
            coalesce_blocks_pair part (remainder s b) pre post touch (rw whole m)
            ∙ ap (λ x. pre ++ x ∷ post) whole)
    ]

-- `first_fit_free` accepts `ptr` in `h'`, and gives back the blocks and the count of `h`.
abbrev Undone : (ℕ → Block) → ℕ → Heap → Heap → Type 0
Undone foreign ptr h h' =
    (h'' : Heap) × (first_fit_free foreign ptr h' ≡ some h'')
    × (h''.blocks ≡ h.blocks)
    × (h''.current_allocated_blocks ≡ h.current_allocated_blocks)

grant-Undone :
    (foreign : ℕ → Block) (size : ℕ) (h : Heap) (b : Block) (p : At b h.blocks)
    → IsHeap h
    → h.current_allocated_blocks < 2 ^ 64
    → fits (request size) b ≡ true
    → Undone foreign (b.addr + header_size) h (grant h size p.pre b p.post)
grant-Undone foreign size h b p v n f =
    let s = request size in
    let g : Heap = grant h size p.pre b p.post in
    let q : At (granted s b) g.blocks = record {
      pre = p.pre;
      post = leftover s b ++ p.post;
      here = refl;
    } in
    let c : Chain h.heap_start (p.pre ++ b ∷ p.post) h.heap_end = rw p.here at v.chain in
    let m : Merged (p.pre ++ b ∷ p.post) = rw p.here at v.merged in
    let sl : All Sealed (p.pre ++ b ∷ p.post) = rw p.here at v.magics in
    let seal : Sealed b = (All-right Sealed p.pre (b ∷ p.post) sl).0 in
    let back = coalesce_placed s h.heap_start h.heap_end p.pre p.post b v.bound f seal c m in
    (
      release g p.pre (granted s b) (leftover s b ++ p.post),
      first_fit_free-release foreign g (granted s b) q (grant-IsHeap h size b p v f) refl,
      back ∙ sym p.here,
      omega arith,
    )

-- A block that `first_fit_malloc` returned can be freed at once, and then the blocks of the heap
-- are those that it had before the two calls, and so is the number of blocks in use.
pub malloc_free_round_trip :
    (foreign : ℕ → Block) (size ptr : ℕ) (h h' : Heap)
    → IsHeap h
    → h.current_allocated_blocks < 2 ^ 64
    → first_fit_malloc size h ≡ (some ptr, h')
    → (h'' : Heap) × (first_fit_free foreign ptr h' ≡ some h'')
      × (h''.blocks ≡ h.blocks)
      × (h''.current_allocated_blocks ≡ h.current_allocated_blocks)
malloc_free_round_trip foreign size ptr h h' v n e = undo (first_fit_malloc-Outcome size h v)
  where
    undo : Outcome size h → Undone foreign ptr h h'
    undo (refused r _) = absurd (ground arith)
    undo (granted_at a f r) =
        let same_heap : grant h size f.place.pre f.block f.place.post ≡ h' = cc in
        let same_ptr : f.block.addr + header_size ≡ ptr = ground arith in
        rw (← same_heap, ← same_ptr) (grant-Undone foreign size h f.block f.place v n f.fit)
