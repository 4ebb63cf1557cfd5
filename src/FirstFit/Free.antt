-- ===== src/FirstFit/Free.antt =====
-- `first_fit_free` of Kernel/mm/first_fit.c: what it releases and what it refuses.
use tp2_kernel.Base.{
  ℕ, ◌+◌, ◌≡◌, refl, true, false, some, List, ◌∷◌, ◌++◌, All, All-append, All-left, All-right,
  arith, add64, sub64,
}
use tp2_kernel.FirstFit.{
  Block, Heap, header_size, free_magic, first_fit_free, mark_free, coalesce_blocks, rejects,
}
use tp2_kernel.FirstFit.Chain.{
  Chain, Chain-le, Chain-append, Chain-split, Chain-addr, write_at-append, At, find_header-append,
}
use tp2_kernel.FirstFit.Coalesce.{
  coalesce_blocks-Chain, coalesce_blocks-Merged, coalesce_blocks-All,
}
use tp2_kernel.FirstFit.Invariant.{IsHeap, Sealed, Aligned}

-- `b` marked free.
abbrev pub freed : Block → Block
freed b = record b { is_free = true; magic = free_magic }

-- The heap after the block `b`, between `pre` and `post`, is released.
abbrev pub release : Heap → List Block → Block → List Block → Heap
release h pre b post = record h {
  blocks = coalesce_blocks (pre ++ freed b ∷ post);
  total_frees = add64 h.total_frees 1;
  current_allocated_blocks = sub64 h.current_allocated_blocks 1;
}

pub release-IsHeap :
    (h : Heap) (b : Block) (p : At b h.blocks) → IsHeap h → IsHeap (release h p.pre b p.post)
release-IsHeap h b p v =
    let c : Chain h.heap_start (p.pre ++ b ∷ p.post) h.heap_end = rw p.here at v.chain in
    let (m, c₀, c₁) = Chain-split h.heap_start h.heap_end p.pre (b ∷ p.post) c in
    let c' : Chain h.heap_start (p.pre ++ freed b ∷ p.post) h.heap_end =
      Chain-append h.heap_start m h.heap_end p.pre (freed b ∷ p.post) c₀ c₁ in
    let s : All Sealed (p.pre ++ b ∷ p.post) = rw p.here at v.magics in
    let al : All Aligned (p.pre ++ b ∷ p.post) = rw p.here at v.aligned in
    record {
      ready = v.ready;
      nonnull = v.nonnull;
      bound = v.bound;
      chain = coalesce_blocks-Chain h.heap_start h.heap_end _ v.bound c';
      magics =
          coalesce_blocks-All Sealed (λ c n q. q) _
            (All-append Sealed p.pre (freed b ∷ p.post) (All-left Sealed p.pre (b ∷ p.post) s)
              (refl, (All-right Sealed p.pre (b ∷ p.post) s).1));
      aligned =
          coalesce_blocks-All Aligned (λ c n q. q) _
            (All-append Aligned p.pre (freed b ∷ p.post) (All-left Aligned p.pre (b ∷ p.post) al)
              (All-right Aligned p.pre (b ∷ p.post) al));
      total = v.total;
      merged = coalesce_blocks-Merged h.heap_start h.heap_end _ v.bound c';
    }

-- Where a block of the chain that is in use stands behind the header, it is released.
pub first_fit_free-release :
    (foreign : ℕ → Block) (h : Heap) (b : Block) (p : At b h.blocks)
    → IsHeap h
    → b.is_free ≡ false
    → first_fit_free foreign (b.addr + header_size) h ≡ some (release h p.pre b p.post)
unfolding first_fit_free rejects
first_fit_free-release foreign h b p v busy =
    let c : Chain h.heap_start (p.pre ++ b ∷ p.post) h.heap_end = rw p.here at v.chain in
    let (m, c₀, c₁) = Chain-split h.heap_start h.heap_end p.pre (b ∷ p.post) c in
    let low = Chain-addr h.heap_start h.heap_end p.pre p.post b c in
    let high = Chain-le (m + header_size + b.size) p.post h.heap_end c₁.1 in
    let back : sub64 (b.addr + header_size) header_size ≡ b.addr = omega arith in
    let s : All Sealed (p.pre ++ b ∷ p.post) = rw p.here at v.magics in
    let seal : Sealed b = (All-right Sealed p.pre (b ∷ p.post) s).0 in
    let found = find_header-append h.heap_start h.heap_end p.pre p.post b c in
    let written = write_at-append mark_free h.heap_start h.heap_end p.pre p.post b c in
    ground (arith, p.here, low, high, back, seal, found, written)
