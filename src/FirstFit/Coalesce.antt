-- ===== src/FirstFit/Coalesce.antt =====
-- `coalesce_blocks` of Kernel/mm/first_fit.c, the joining of free neighbours.
use tp2_kernel.Base.{
  ℕ, ◌+◌, ◌<◌, ◌^◌, ◌≡◌, refl, Bool, true, false, ◌&&◌, List, [], ◌∷◌, ◌++◌, ap, All, arith,
  if◌then◌else◌, Bool-cases, inl, inr, add64,
}
use tp2_kernel.FirstFit.{Block, header_size, coalesce_from, coalesce_blocks, joins}
use tp2_kernel.FirstFit.Chain.{Chain, Chain-le}

-- The block that `c` becomes when `n` is joined to it.
abbrev pub joined : Block → Block → Block
joined c n = record c { size = add64 c.size (add64 header_size n.size) }

coalesce_from-joins :
    (c n : Block) (bs : List Block)
    → joins c n ≡ true
    → coalesce_from c (n ∷ bs) ≡ coalesce_from (joined c n) bs
unfolding coalesce_from
coalesce_from-joins c n bs h = rw h

coalesce_from-apart :
    (c n : Block) (bs : List Block)
    → joins c n ≡ false
    → coalesce_from c (n ∷ bs) ≡ c ∷ coalesce_from n bs
unfolding coalesce_from
coalesce_from-apart c n bs h = rw h

coalesce_from-Chain :
    (a e : ℕ) (c : Block) (bs : List Block)
    → e < 2 ^ 64
    → Chain a (c ∷ bs) e
    → Chain a (coalesce_from c bs) e
unfolding coalesce_from
coalesce_from-Chain a e c [] h k = k
coalesce_from-Chain a e c (n ∷ bs) h k =
    let far = Chain-le (a + header_size + c.size + header_size + n.size) bs e k.1.1 in
    elim (Bool-cases (joins c n)) [
      | inl j ↦
          let size : (joined c n).size ≡ c.size + (header_size + n.size) = omega arith in
          let end_eq : a + header_size + (joined c n).size
              ≡ a + header_size + c.size + header_size + n.size =
            omega arith in
          rw j (coalesce_from-Chain a e (joined c n) bs h (k.0, rw end_eq k.1.1))
      | inr j ↦ rw j (k.0, coalesce_from-Chain (a + header_size + c.size) e n bs h k.1)
    ]

-- Joining keeps the chain.
pub coalesce_blocks-Chain :
    (a e : ℕ) (bs : List Block) → e < 2 ^ 64 → Chain a bs e → Chain a (coalesce_blocks bs) e
unfolding coalesce_blocks
coalesce_blocks-Chain a e [] h k = k
coalesce_blocks-Chain a e (b ∷ bs) h k = coalesce_from-Chain a e b bs h k

-- The blocks in use.
abbrev pub used : List Block → List Block
used [] = []
used (b ∷ bs) = if b.is_free then used bs else b ∷ used bs

coalesce_from-used : (c : Block) (bs : List Block) → used (coalesce_from c bs) ≡ used (c ∷ bs)
unfolding coalesce_from
coalesce_from-used c [] = refl
coalesce_from-used c (n ∷ bs) = elim (Bool-cases (joins c n)) [
  | inl j ↦ rw j (ground (arith, coalesce_from-used (joined c n) bs))
  | inr j ↦ rw j (ground (arith, coalesce_from-used n bs))
]

-- Joining leaves every block in use as it is.
pub used-coalesce_blocks : (bs : List Block) → used (coalesce_blocks bs) ≡ used bs
unfolding coalesce_blocks
used-coalesce_blocks [] = refl
used-coalesce_blocks (b ∷ bs) = coalesce_from-used b bs

-- No two free blocks are neighbours.
abbrev pub Merged : List Block → Type 0
Merged [] = Unit {0}
Merged (b ∷ []) = Unit {0}
Merged (b ∷ n ∷ bs) = ((b.is_free && n.is_free) ≡ false) × Merged (n ∷ bs)

-- A block that does not join goes on before a merged list, whose head is free only if `n` is.
abbrev HeadFree : Bool → List Block → Type 0
HeadFree f [] = Unit {0}
HeadFree f (b ∷ bs) = b.is_free ≡ f

coalesce_from-head : (c : Block) (bs : List Block) → HeadFree c.is_free (coalesce_from c bs)
unfolding coalesce_from
coalesce_from-head c [] = refl
coalesce_from-head c (n ∷ bs) = elim (Bool-cases (joins c n)) [
  | inl j ↦ rw j (coalesce_from-head (joined c n) bs)
  | inr j ↦ rw j refl
]

Merged-cons :
    (c : Block) (f : Bool) (bs : List Block)
    → HeadFree f bs
    → (c.is_free && f) ≡ false
    → Merged bs
    → Merged (c ∷ bs)
Merged-cons c f [] h k m = tt
Merged-cons c f (b ∷ bs) h k m = (rw h k, m)

coalesce_from-Merged :
    (a e : ℕ) (c : Block) (bs : List Block)
    → e < 2 ^ 64
    → Chain a (c ∷ bs) e
    → Merged (coalesce_from c bs)
unfolding coalesce_from
coalesce_from-Merged a e c [] h k = tt
coalesce_from-Merged a e c (n ∷ bs) h k =
    let far = Chain-le (a + header_size + c.size + header_size + n.size) bs e k.1.1 in
    elim (Bool-cases (joins c n)) [
      | inl j ↦
          let end_eq : a + header_size + (joined c n).size
              ≡ a + header_size + c.size + header_size + n.size =
            omega arith in
          rw j (coalesce_from-Merged a e (joined c n) bs h (k.0, rw end_eq k.1.1))
      | inr j ↦
          let touch : add64 (add64 c.addr header_size) c.size ≡ n.addr = omega arith in
          rw j (
            Merged-cons c n.is_free (coalesce_from n bs) (coalesce_from-head n bs)
              (ground (arith, touch))
              (coalesce_from-Merged (a + header_size + c.size) e n bs h k.1))
    ]

-- One pass leaves no two free neighbours, whatever stood there.
pub coalesce_blocks-Merged :
    (a e : ℕ) (bs : List Block) → e < 2 ^ 64 → Chain a bs e → Merged (coalesce_blocks bs)
unfolding coalesce_blocks
coalesce_blocks-Merged a e [] h k = tt
coalesce_blocks-Merged a e (b ∷ bs) h k = coalesce_from-Merged a e b bs h k

module _ {ℓ} (P : Block → Type ℓ) (keep : (c n : Block) → P c → P (joined c n)) where
  coalesce_from-All : (c : Block) (bs : List Block) → All P (c ∷ bs) → All P (coalesce_from c bs)
  unfolding coalesce_from
  coalesce_from-All c [] h = h
  coalesce_from-All c (n ∷ bs) h = elim (Bool-cases (joins c n)) [
    | inl j ↦ rw j (coalesce_from-All (joined c n) bs (keep c n h.0, h.1.1))
    | inr j ↦ rw j (h.0, coalesce_from-All n bs h.1)
  ]

  -- What holds of every block and does not depend on its size holds after the pass.
  pub coalesce_blocks-All : (bs : List Block) → All P bs → All P (coalesce_blocks bs)
  unfolding coalesce_blocks
  coalesce_blocks-All [] h = h
  coalesce_blocks-All (b ∷ bs) h = coalesce_from-All b bs h

coalesce_from_id : (c : Block) (bs : List Block) → Merged (c ∷ bs) → coalesce_from c bs ≡ c ∷ bs
coalesce_from_id c [] m = unfold coalesce_from in refl
coalesce_from_id c (n ∷ bs) m =
    rw (coalesce_from-apart c n bs (ground arith)) (ap (◌∷◌ c) (coalesce_from_id n bs m.1))

coalesce_from_pair :
    (c g r : Block) (pre post : List Block)
    → joins g r ≡ true
    → Merged (c ∷ (pre ++ joined g r ∷ post))
    → coalesce_from c (pre ++ g ∷ r ∷ post) ≡ c ∷ (pre ++ joined g r ∷ post)
coalesce_from_pair c g r [] post j m = rw (
  coalesce_from-apart c g (r ∷ post) (ground arith),
  coalesce_from-joins g r post j,
  coalesce_from_id (joined g r) post m.1,
)
coalesce_from_pair c g r (x ∷ pre) post j m =
    rw (coalesce_from-apart c x (pre ++ g ∷ r ∷ post) (ground arith))
      (ap (◌∷◌ c) (coalesce_from_pair x g r pre post j m.1))

-- A list that is merged but for one pair becomes merged by joining that pair.
pub coalesce_blocks_pair :
    (g r : Block) (pre post : List Block)
    → joins g r ≡ true
    → Merged (pre ++ joined g r ∷ post)
    → coalesce_blocks (pre ++ g ∷ r ∷ post) ≡ pre ++ joined g r ∷ post
unfolding coalesce_blocks
coalesce_blocks_pair g r [] post j m =
    rw (coalesce_from-joins g r post j) (coalesce_from_id (joined g r) post m)
coalesce_blocks_pair g r (x ∷ pre) post j m = coalesce_from_pair x g r pre post j m

pub coalesce_blocks_id : (bs : List Block) → Merged bs → coalesce_blocks bs ≡ bs
unfolding coalesce_blocks
coalesce_blocks_id [] m = refl
coalesce_blocks_id (b ∷ bs) m = coalesce_from_id b bs m
