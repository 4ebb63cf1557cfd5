-- ===== src/Keyboard/Modifiers.antt =====
-- Which modifiers Kernel/drivers/keyboard.c takes to be held.
use tp2_kernel.Base.{
  ℕ, ◌≡◌, refl, sym, arith, ◌∙◌, Bool, true, false, Option, none, some, ◌||◌, List, [], ◌∷◌, ◌==◌,
  if◌then◌else◌, Bool-cases, inl, inr,
}
use tp2_kernel.Keyboard.{Keyboard, modify}

-- The scan codes one after the other.
pub keys : List ℕ → Keyboard → Keyboard
keys [] k = k
keys (c ∷ cs) k = keys cs (modify c k)

-- The last scan code with a property.
pub last_of : (ℕ → Bool) → List ℕ → Option ℕ
last_of test [] = none
last_of test (c ∷ cs) =
    let later = last_of test cs in
    elim later [ none ↦ if test c then some c else none | some d ↦ some d ]

-- Left and right shift, pressed and released; the control key.
abbrev pub presses_shift : ℕ → Bool
presses_shift c = c == 0x2A || c == 0x36

abbrev pub releases_shift : ℕ → Bool
releases_shift c = c == 0xAA || c == 0xB6

abbrev pub decided : (ℕ → Bool) → Option ℕ → Bool → Bool
decided presses none before = before
decided presses (some c) before = presses c

-- What the keyboard takes to be held after the scan codes `cs`.
pub record Held (cs : List ℕ) (k k' : Keyboard) : Type 0 where
  pub shift :
      k'.shift
      ≡ decided presses_shift (last_of (λ c. presses_shift c || releases_shift c) cs) k.shift
  pub ctrl : k'.ctrl ≡ decided (λ c. c == 0x1D) (last_of (λ c. c == 0x1D || c == 0x9D) cs) k.ctrl

-- One more scan code in front of others.
behind :
    (presses releases : ℕ → Bool) (c : ℕ)
    → (releases c ≡ true → presses c ≡ false)
    → (later : Option ℕ) (before : Bool)
    → decided presses later (if releases c then false else if presses c then true else before)
      ≡ decided presses
          (elim later [ none ↦ if presses c || releases c then some c else none | some d ↦ some d ])
          before
behind presses releases c h (some d) before = refl
behind presses releases c h none before = elim (Bool-cases (releases c)) [
  | inl r ↦ let p = h r in rw (r, p) (sym p)
  | inr r ↦ elim (Bool-cases (presses c)) [ inl p ↦ rw (r, p) (sym p) | inr p ↦ rw (r, p) refl ]
]

exclusive_shift : (c : ℕ) → releases_shift c ≡ true → presses_shift c ≡ false
exclusive_shift c h = ground arith

exclusive_ctrl : (c : ℕ) → (c == 0x9D) ≡ true → (c == 0x1D) ≡ false
exclusive_ctrl c h = ground arith

-- After any scan codes, shift and control are taken to be held exactly if the last scan code that presses
-- or releases such a key presses it, or, without one, if they were held before.
pub keys-Held : (cs : List ℕ) (k : Keyboard) → Held cs k (keys cs k)
unfolding keys last_of modify
keys-Held [] k = record { shift = refl; ctrl = refl }
keys-Held (c ∷ cs) k =
    let ih = keys-Held cs (modify c k) in
    record {
      shift =
          ih.shift
          ∙ behind presses_shift releases_shift c (exclusive_shift c)
              (last_of (λ d. presses_shift d || releases_shift d) cs) k.shift;
      ctrl =
          ih.ctrl
          ∙ behind (λ d. d == 0x1D) (λ d. d == 0x9D) c (exclusive_ctrl c)
              (last_of (λ d. d == 0x1D || d == 0x9D) cs) k.ctrl;
    }
