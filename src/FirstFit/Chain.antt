-- ===== src/FirstFit/Chain.antt =====
-- The chain of blocks of Kernel/mm/first_fit.c: contiguous from one address to another.
use tp2_kernel.Base.{
  ℕ, ◌+◌, ◌≤◌, ◌<◌, ◌≡◌, refl, ap, Bool, true, false, ◌&&◌, none, some, List, [], ◌∷◌, ◌++◌, All,
  arith, leb, ◌==◌, Bool-cases, inl, inr,
}
use tp2_kernel.FirstFit.{Block, header_size, find_free_block, write_at, find_header}

-- The blocks lie one behind the other, headers included, from `a` up to `e`.
abbrev pub Chain : ℕ → List Block → ℕ → Type 0
Chain a [] e = a ≡ e
Chain a (b ∷ bs) e = (b.addr ≡ a) × Chain (a + header_size + b.size) bs e

pub Chain-le : (a : ℕ) (bs : List Block) (e : ℕ) → Chain a bs e → a ≤ e
Chain-le a [] e c = omega arith
Chain-le a (b ∷ bs) e c = omega (arith, Chain-le (a + header_size + b.size) bs e c.1)

pub Chain-append :
    (a m e : ℕ) (xs ys : List Block) → Chain a xs m → Chain m ys e → Chain a (xs ++ ys) e
Chain-append a m e [] ys c d = ground (arith, c, d)
Chain-append a m e (x ∷ xs) ys c d = (c.0, Chain-append (a + header_size + x.size) m e xs ys c.1 d)

pub Chain-split :
    (a e : ℕ) (xs ys : List Block) → Chain a (xs ++ ys) e → (m : ℕ) × Chain a xs m × Chain m ys e
Chain-split a e [] ys c = (a, refl, c)
Chain-split a e (x ∷ xs) ys c =
    let (m, p, q) = Chain-split (a + header_size + x.size) e xs ys c.1 in (m, (c.0, p), q)

pub Chain-addr :
    (a e : ℕ) (pre post : List Block) (b : Block) → Chain a (pre ++ b ∷ post) e → a ≤ b.addr
Chain-addr a e [] post b c = omega arith
Chain-addr a e (x ∷ pre) post b c =
    omega (arith, Chain-addr (a + header_size + x.size) e pre post b c.1)

-- All blocks before `b` have another address.
pub Chain-before :
    (a e : ℕ) (pre post : List Block) (b : Block)
    → Chain a (pre ++ b ∷ post) e
    → All (λ x. (x.addr == b.addr) ≡ false) pre
Chain-before a e [] post b c = tt
Chain-before a e (x ∷ pre) post b c =
    let before : x.addr < b.addr =
      omega (arith, Chain-addr (a + header_size + x.size) e pre post b c.1) in
    (ground arith, Chain-before (a + header_size + x.size) e pre post b c.1)

pub write_at-past :
    (f : Block → List Block) (a : ℕ) (pre ys : List Block)
    → All (λ x. (x.addr == a) ≡ false) pre
    → write_at a f (pre ++ ys) ≡ pre ++ write_at a f ys
unfolding write_at
write_at-past f a [] ys h = refl
write_at-past f a (x ∷ pre) ys h = rw h.0 (ap (◌∷◌ x) (write_at-past f a pre ys h.1))

pub write_at-head :
    (f : Block → List Block) (b : Block) (ys : List Block) → write_at b.addr f (b ∷ ys) ≡ f b ++ ys
unfolding write_at
write_at-head f b ys = ground arith

-- The address of a block tells it from all before it.
pub write_at-append :
    (f : Block → List Block) (a e : ℕ) (pre post : List Block) (b : Block)
    → Chain a (pre ++ b ∷ post) e
    → write_at b.addr f (pre ++ b ∷ post) ≡ pre ++ (f b ++ post)
write_at-append f a e pre post b c =
    rw (
      write_at-past f b.addr pre (b ∷ post) (Chain-before a e pre post b c),
      write_at-head f b post,
    )

pub find_header-append :
    (a e : ℕ) (pre post : List Block) (b : Block)
    → Chain a (pre ++ b ∷ post) e
    → find_header b.addr (pre ++ b ∷ post) ≡ some b
unfolding find_header
find_header-append a e [] post b c = ground arith
find_header-append a e (x ∷ pre) post b c =
    let before : x.addr < b.addr =
      omega (arith, Chain-addr (a + header_size + x.size) e pre post b c.1) in
    ground (arith, before, find_header-append (a + header_size + x.size) e pre post b c.1)

-- The block stands in the list, between `pre` and `post`.
pub record At (b : Block) (bs : List Block) : Type 0 where
  pub pre : List Block
  pub post : List Block
  pub here : bs ≡ pre ++ b ∷ post

pub find_header-At :
    (a : ℕ) (bs : List Block) (b : Block) → find_header a bs ≡ some b → At b bs × (b.addr ≡ a)
unfolding find_header
find_header-At a [] b h = cc
find_header-At a (x ∷ bs) b h = elim (Bool-cases (x.addr == a)) [
  | inl hit ↦ (record { pre = []; post = bs; here = ap (λ y. y ∷ bs) (ground arith) }, ground arith)
  | inr miss ↦
      let (p, q) = find_header-At a bs b (ground arith) in
      (record { pre = x ∷ p.pre; post = p.post; here = ap (◌∷◌ x) p.here }, q)
]

-- What `find_free_block` looks for in a block.
abbrev pub fits : ℕ → Block → Bool
fits size b = b.is_free && leb size b.size

pub record FirstFit (size a : ℕ) (bs : List Block) : Type 0 where
  pub block : Block
  pub place : At block bs
  pub addr_eq : block.addr ≡ a
  pub fit : fits size block ≡ true
  pub first : All (λ c. fits size c ≡ false) place.pre

-- The block that `find_free_block` returns is the first that fits, and there is none otherwise.
pub find_free_block-FirstFit :
    (size a : ℕ) (bs : List Block) → find_free_block size bs ≡ some a → FirstFit size a bs
unfolding find_free_block
find_free_block-FirstFit size a [] h = cc
find_free_block-FirstFit size a (x ∷ bs) h = elim (Bool-cases (fits size x)) [
  | inl hit ↦ record {
    block = x;
    place = record { pre = []; post = bs; here = refl };
    addr_eq = ground arith;
    fit = hit;
    first = tt;
  }
  | inr miss ↦
      let r = find_free_block-FirstFit size a bs (rw miss at h) in
      record {
        block = r.block;
        place = record {
          pre = x ∷ r.place.pre;
          post = r.place.post;
          here = ap (◌∷◌ x) r.place.here;
        };
        addr_eq = r.addr_eq;
        fit = r.fit;
        first = (miss, r.first);
      }
]

pub find_free_block-none :
    (size : ℕ) (bs : List Block)
    → find_free_block size bs ≡ none
    → All (λ c. fits size c ≡ false) bs
unfolding find_free_block
find_free_block-none size [] h = tt
find_free_block-none size (x ∷ bs) h = elim (Bool-cases (fits size x)) [
  | inl hit ↦ absurd (ground arith)
  | inr miss ↦ (miss, find_free_block-none size bs (rw miss at h))
]
