-- ===== src/Buddy/Orders.antt =====
-- The orders of the blocks of Kernel/mm/buddy_system.c.
use tp2_kernel.Base.{
  ℕ, zero, suc, ◌+◌, ◌-◌, ◌*◌, ◌/◌, ◌%◌, ◌^◌, ◌≤◌, ◌<◌, ◌≡◌, refl, sym, ap, ◌∙◌, true, false, arith,
  ltb, ltb→lt, ◌==◌, Bool-cases, inl, inr, ◌⊎◌,
}
use native.Mathlib.Nat.{pow-suc, zero-div}
use tp2_kernel.Buddy.{Buddy, min_order, page_size, order_from, size_to_order, buddy_index}

pow_double : (n : ℕ) → 2 ^ (n + 1) ≡ 2 ^ n * 2
pow_double n = let next : n + 1 ≡ suc n = omega arith in ap (λ m. 2 ^ m) next ∙ pow-suc 2 n

last_order : (order r : ℕ) → r ≡ order + 1 → r - 1 ≡ order
last_order order r h = omega (arith, h)

-- The loop ends at the first order whose block holds the size, or at the last one.
order_from-least :
    (n order size : ℕ)
    → let r = order_from n order (2 ^ order) size in
      (order ≤ r)
      × (r ≤ order + n)
      × ((size ≤ 2 ^ r) ⊎ (r ≡ order + n))
      × ((r ≡ order) ⊎ (2 ^ (r - 1) < size))
unfolding order_from
order_from-least zero order size = (omega arith, omega arith, inr (omega arith), inl refl)
order_from-least (suc n) order size = elim (Bool-cases (ltb (2 ^ order) size)) [
  | inr e ↦ rw e (omega arith, omega arith, inl (ground arith), inl refl)
  | inl e ↦
      let ih = order_from-least n (order + 1) size in
      let double : 2 ^ (order + 1) ≡ 2 ^ order * 2 = pow_double order in
      rw (e, ← double)
        (
          omega (arith, ih.0),
          omega (arith, ih.1),
          elim ih.2 [ inl h ↦ inl h | inr h ↦ inr (omega (arith, h)) ],
          inr (elim ih.3 [
            | inl h ↦ let down = last_order order _ h in rw down (ltb→lt (2 ^ order) size e)
            | inr h ↦ h
          ]),
        )
]

-- The order for a size that the largest block holds is the least one whose block holds it.
pub record Least (size r max : ℕ) : Type 0 where
  pub above : min_order ≤ r
  pub below : r ≤ max
  pub holds : size ≤ 2 ^ r
  pub least : (r ≡ min_order) ⊎ (2 ^ (r - 1) < size)

pub size_to_order-Least :
    (size : ℕ) (b : Buddy)
    → min_order ≤ b.max_order
    → size ≤ 2 ^ b.max_order
    → Least size (size_to_order size b) b.max_order
unfolding size_to_order
size_to_order-Least size b h fits = elim (Bool-cases (size == 0)) [
  | inl z ↦ rw z (record { above = omega arith; below = h; holds = ground arith; least = inl refl })
  | inr z ↦
      let o = order_from-least (b.max_order - min_order) min_order size in
      rw z (record {
        above = o.0;
        below = omega (arith, o.1, h);
        holds = elim o.2 [
          | inl ok ↦ ok
          | inr last ↦
              let top : order_from (b.max_order - min_order) min_order page_size size
                  ≡ b.max_order =
                omega (arith, last, h) in
              rw top fits
        ];
        least = o.3;
      })
]

pow_grows : (n order : ℕ) → 2 ^ order ≤ 2 ^ (order + n)
pow_grows zero order = let same : order + 0 ≡ order = omega arith in rw same (omega arith)
pow_grows (suc n) order =
    let ih = pow_grows n order in
    let next : order + suc n ≡ (order + n) + 1 = omega arith in
    rw (next, pow_double (order + n)) (omega (arith, ih))

pow_mono : (a c : ℕ) → a ≤ c → 2 ^ a ≤ 2 ^ c
pow_mono a c h = let divide : c ≡ a + (c - a) = omega arith in rw divide (pow_grows (c - a) a)

-- A size that no block holds gets the largest order all the same.
pub size_to_order-max :
    (size : ℕ) (b : Buddy)
    → min_order ≤ b.max_order
    → 2 ^ b.max_order < size
    → size_to_order size b ≡ b.max_order
unfolding size_to_order
size_to_order-max size b h big =
    let o = order_from-least (b.max_order - min_order) min_order size in
    let some_size : (size == 0) ≡ false = ground (arith, big) in
    rw some_size (elim o.2 [
      | inl fits ↦
          let r = order_from (b.max_order - min_order) min_order page_size size in
          let low : r ≤ b.max_order = omega (arith, o.1, h) in
          let grows = pow_mono r b.max_order low in absurd (omega (arith, grows, fits, big))
      | inr last ↦ omega (arith, last, h)
    ])

-- The block that a division of the block `idx` of the order `current + 1` puts on the free list.
pub divide_other-Outside :
    (idx current : ℕ)
    → min_order ≤ current
    → let other = buddy_index idx (current + 1) in
      (other < idx) ⊎ (idx + 2 ^ (current + 1 - min_order) ≤ other)
unfolding buddy_index
divide_other-Outside idx current h =
    let size = 2 ^ (current + 1 - min_order) in
    elim (Bool-cases (idx / size % 2 == 0)) [
      | inl e ↦ rw e (inr (omega arith))
      | inr e ↦ rw e (inl (below idx size (pow_mono 0 (current + 1 - min_order) (omega arith)) e))
    ]
  where
    below : (idx size : ℕ) → 2 ^ 0 ≤ size → (idx / size % 2 == 0) ≡ false → idx - size < idx
    below zero size pos e =
        let none_set : (zero / size % 2 == 0) ≡ true = rw (zero-div size) refl in
        let no : true ≡ false = sym none_set ∙ e in cc
    below (suc idx) size pos e = omega (arith, pos)

pub size_to_order-above : (size : ℕ) (b : Buddy) → min_order ≤ size_to_order size b
unfolding size_to_order
size_to_order-above size b = elim (Bool-cases (size == 0)) [
  | inl z ↦ rw z (omega arith)
  | inr z ↦ rw z (order_from-least (b.max_order - min_order) min_order size).0
]
