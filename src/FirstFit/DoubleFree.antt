-- ===== src/FirstFit/DoubleFree.antt =====
-- A second `first_fit_free` of one pointer (Kernel/mm/first_fit.c).
use tp2_kernel.Base.{
  ℕ, ◌+◌, ◌<◌, ◌≡◌, refl, true, false, some, List, [], ◌∷◌, ◌++◌, All, All-append, All-right, arith,
  ◌==◌, Option-cases, inl, inr, sub64,
}
use tp2_kernel.FirstFit.{Block, Heap, header_size, first_fit_free, find_header, rejects}
use tp2_kernel.FirstFit.Chain.{Chain, Chain-before, Chain-split, At, find_header-At}
use tp2_kernel.FirstFit.Coalesce.{coalesce_blocks-All}
use tp2_kernel.FirstFit.Invariant.{IsHeap}
use tp2_kernel.FirstFit.Free.{freed, release}
use tp2_kernel.FirstFit.RoundTrip.{Freed, ignored, released, first_fit_free-Freed}

-- Whatever stands at the address `a` is free.
abbrev FreeAt : ℕ → Block → Type 0
FreeAt a b = b.addr ≡ a → b.is_free ≡ true

FreeAt-far : (a : ℕ) (bs : List Block) → All (λ x. (x.addr == a) ≡ false) bs → All (FreeAt a) bs
FreeAt-far a [] h = tt
FreeAt-far a (b ∷ bs) h = ((λ e. absurd (ground arith)), FreeAt-far a bs h.1)

FreeAt-behind : (a m e : ℕ) (bs : List Block) → a < m → Chain m bs e → All (FreeAt a) bs
FreeAt-behind a m e [] h c = tt
FreeAt-behind a m e (b ∷ bs) h c =
    ((λ p. absurd (omega arith)), FreeAt-behind a (m + header_size + b.size) e bs (omega arith) c.1)

-- Nothing in use stands any more at the address of a block that was released.
release-FreeAt :
    (h : Heap) (b : Block) (p : At b h.blocks)
    → IsHeap h
    → All (FreeAt b.addr) (release h p.pre b p.post).blocks
release-FreeAt h b p v =
    let c : Chain h.heap_start (p.pre ++ b ∷ p.post) h.heap_end = rw p.here at v.chain in
    let (m, c₀, c₁) = Chain-split h.heap_start h.heap_end p.pre (b ∷ p.post) c in
    coalesce_blocks-All (FreeAt b.addr) (λ c n q. q) _
      (All-append (FreeAt b.addr) p.pre (freed b ∷ p.post)
        (FreeAt-far b.addr p.pre (Chain-before h.heap_start h.heap_end p.pre p.post b c))
        (
          (λ e. refl),
          FreeAt-behind b.addr (m + header_size + b.size) h.heap_end p.post (omega arith) c₁.1,
        ))

FreeAt-ignored :
    (foreign : ℕ → Block) (ptr : ℕ) (h : Heap)
    → All (FreeAt (sub64 ptr header_size)) h.blocks
    → (foreign (sub64 ptr header_size)).is_free ≡ true
    → first_fit_free foreign ptr h ≡ some h
unfolding first_fit_free rejects
FreeAt-ignored foreign ptr h f stale =
    elim (Option-cases (find_header (sub64 ptr header_size) h.blocks)) [
      | inl n ↦ ground (arith, n, stale)
      | inr (b, n) ↦
          let (p, q) = find_header-At (sub64 ptr header_size) h.blocks b n in
          let all : All (FreeAt (sub64 ptr header_size)) (p.pre ++ b ∷ p.post) = rw p.here at f in
          let free_b : b.is_free ≡ true =
            (All-right (FreeAt (sub64 ptr header_size)) p.pre (b ∷ p.post) all).0 q in
          ground (arith, n, free_b)
    ]

-- After a `first_fit_free` of `ptr` that the allocator survived, freeing `ptr` again changes nothing.
-- If the header of `ptr` was joined to its neighbour it is no block of the chain any more; the
-- hypothesis is that the word `is_free` there is still the 1 that the first call wrote.
pub first_fit_free_twice :
    (foreign : ℕ → Block) (ptr : ℕ) (h h' : Heap)
    → IsHeap h
    → (foreign (sub64 ptr header_size)).is_free ≡ true
    → first_fit_free foreign ptr h ≡ some h'
    → first_fit_free foreign ptr h' ≡ some h'
first_fit_free_twice foreign ptr h h' v stale e = again (first_fit_free-Freed foreign ptr h h' v e)
  where
    again : Freed ptr h h' → first_fit_free foreign ptr h' ≡ some h'
    again (ignored s) = rw (← s) at e
    again (released b p q busy s) =
        FreeAt-ignored foreign ptr h' (rw (s, ← q) (release-FreeAt h b p v)) stale
