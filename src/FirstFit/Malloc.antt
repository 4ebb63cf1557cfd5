-- ===== src/FirstFit/Malloc.antt =====
-- `first_fit_malloc` of Kernel/mm/first_fit.c: what it does to the chain.
use tp2_kernel.Base.{
  ℕ, ◌+◌, ◌-◌, ◌<◌, ◌^◌, ◌≡◌, ap, true, false, List, [], ◌∷◌, ◌++◌, arith, ltb, if◌then◌else◌,
  sub64,
}
use tp2_kernel.FirstFit.{
  Block, header_size, min_block_size, block_magic, free_magic, split, split_block, write_at,
  mark_used,
}
use tp2_kernel.FirstFit.Chain.{
  Chain, Chain-le, Chain-split, write_at-append, write_at-past, Chain-before, fits,
}

-- The free block left behind the part that was taken.
abbrev pub remainder : ℕ → Block → Block
remainder s b = record {
  addr = b.addr + header_size + s;
  size = b.size - s - header_size;
  is_free = true;
  magic = free_magic;
}

-- The block in use that a request of `s` bytes makes of the free block `b`.
abbrev pub granted : ℕ → Block → Block
granted s b = record {
  addr = b.addr;
  size = if ltb (b.size - s) (header_size + min_block_size) then b.size else s;
  is_free = false;
  magic = block_magic;
}

-- What is left free behind it.
abbrev pub leftover : ℕ → Block → List Block
leftover s b = if ltb (b.size - s) (header_size + min_block_size) then [] else remainder s b ∷ []

-- All that stands in the place of `b` afterwards.
abbrev pub placed : ℕ → Block → List Block
placed s b = granted s b ∷ leftover s b

split-placed :
    (s : ℕ) (b : Block) (post : List Block)
    → fits s b ≡ true
    → b.addr + header_size + b.size < 2 ^ 64
    → write_at b.addr mark_used (split s b ++ post) ≡ placed s b ++ post
unfolding write_at split
split-placed s b post f h =
    let diff : sub64 b.size s ≡ b.size - s = ground arith in ground (arith, diff)

-- A grant at `b` leaves everything before and behind it as it was.
pub malloc-Chain :
    (s a e : ℕ) (pre post : List Block) (b : Block)
    → fits s b ≡ true
    → e < 2 ^ 64
    → Chain a (pre ++ b ∷ post) e
    → write_at b.addr mark_used (split_block b.addr s (pre ++ b ∷ post))
      ≡ pre ++ (placed s b ++ post)
unfolding split_block
malloc-Chain s a e pre post b f h c =
    let (m, p, q) = Chain-split a e pre (b ∷ post) c in
    let far = Chain-le (m + header_size + b.size) post e q.1 in
    rw
      (
        write_at-append (split s) a e pre post b c,
        write_at-past mark_used b.addr pre (split s b ++ post) (Chain-before a e pre post b c),
      )
      (ap (◌++◌ pre) (split-placed s b post f (omega arith)))
