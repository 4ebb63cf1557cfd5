-- ===== src/Ring.antt =====
-- Circular buffers, as Kernel/ipc/pipe.c and Kernel/fs/tty.c keep them: `size` bytes from a read
-- index on, going round at the capacity. The array is a function from the index.
use tp2_kernel.Base.{
  ℕ, zero, suc, ◌+◌, ◌-◌, ◌%◌, ◌≤◌, ◌<◌, ◌≡◌, ◌≢◌, refl, ap, ap₂, sym, ◌∙◌, List, [], ◌∷◌, ◌++◌,
  arith, ◌==◌, true, false, ltb, update, length, Bool-cases, inl, inr,
}
use native.Mathlib.Nat.{mod-add-mod, mod-eq_of_lt, mod-eq-sub-mod}

-- The `n` bytes from index `r` on.
abbrev pub span : (ℕ → ℕ) → ℕ → ℕ → ℕ → List ℕ
span buf m r zero = []
span buf m r (suc n) = buf r ∷ span buf m ((r + 1) % m) n

pub length-span : (buf : ℕ → ℕ) (m r n : ℕ) → length (span buf m r n) ≡ n
length-span buf m r zero = refl
length-span buf m r (suc n) = ap suc (length-span buf m ((r + 1) % m) n)

-- Going on round the buffer from the next index.
pub next-mod : (m r n : ℕ) → ((r + 1) % m + n) % m ≡ (r + suc n) % m
next-mod m r n = rw mod-add-mod (ap (λ k. k % m) (omega arith))

-- The index behind a span that is not full is none of its own.
ahead-ne : (m r n : ℕ) → r < m → suc n < m → (r + suc n) % m ≢ r
ahead-ne m r n h k = elim (Bool-cases (ltb (r + suc n) m)) [
  | inl b ↦ let fits : r + suc n < m = ground arith in omega (arith, mod-eq_of_lt fits)
  | inr b ↦
      let over : m ≤ r + suc n = ground arith in
      let back : r + suc n - m < m = omega arith in
      omega (arith, mod-eq-sub-mod over, mod-eq_of_lt back)
]

-- A byte stored behind a span that is not full goes to its end.
pub span-store :
    (buf : ℕ → ℕ) (m c n r w : ℕ)
    → r < m
    → n < m
    → w ≡ (r + n) % m
    → span (update buf w c) m r (suc n) ≡ span buf m r n ++ c ∷ []
span-store buf m c zero r w h k e =
    let same : w ≡ r = e ∙ ap (λ k. k % m) (omega arith) ∙ mod-eq_of_lt h in
    let hit : (w == r) ≡ true = ground arith in rw hit
span-store buf m c (suc n) r w h k e =
    let miss : (w == r) ≡ false = ground (arith, ahead-ne m r n h k) in
    let first : update buf w c r ≡ buf r = rw miss in
    ap₂ ◌∷◌ first
      (span-store buf m c n ((r + 1) % m) w (omega arith) (omega arith) (e ∙ sym (next-mod m r n)))
