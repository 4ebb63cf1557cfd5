-- ===== src/Keyboard/Letters.antt =====
-- The characters of the keys in Kernel/drivers/keyboard.c.
use tp2_kernel.Base.{
  ==_iff, leb→le, &&_both, le→ltb, [], ◌∷◌, ℕ, zero, suc, ◌+◌, ◌-◌, ◌<◌, ◌≤◌, ◌≡◌, refl, ap, sym,
  ◌∙◌, Bool, true, false, not, ◌&&◌, ◌||◌, Option, List, arith, ltb, leb, ◌==◌, if◌then◌else◌,
  get_or, length, Bool-cases, inl, inr,
}
use tp2_kernel.Keyboard.{
  Keyboard, key_map_l, key_map_u, key_map, controlled, get_char_from_keyboard, modify,
  keyboard_handler,
}
use tp2_kernel.Tty.{Tty}
use tp2_kernel.Tty.Input.{tty_handle_input-ctrl_c}

-- A test of every number below `n`.
abbrev all_below : ℕ → (ℕ → Bool) → Bool
all_below zero test = true
all_below (suc n) test = test n && all_below n test

all_below_lem :
    (n : ℕ) (test : ℕ → Bool) → all_below n test ≡ true → (c : ℕ) → c < n → test c ≡ true
all_below_lem zero test h c lt = absurd (omega arith)
all_below_lem (suc n) test h c lt =
    let both = &&_both (test n) (all_below n test) h in
    elim (Bool-cases (n == c)) [
      | inl e ↦ let same : n ≡ c = ground arith in ap test (sym same) ∙ both.0
      | inr e ↦ all_below_lem n test both.1 c (ground arith)
    ]

-- The scan code of a letter.
abbrev pub is_letter : ℕ → Bool
is_letter c = leb 97 (get_or key_map_l c 0) && leb (get_or key_map_l c 0) 122

-- A letter key holds its small letter in one table, its capital letter in the other, and neither the
-- scan code of a release nor one that is read otherwise.
abbrev lettered : ℕ → Bool
lettered c =
    not (is_letter c)
    || (get_or key_map_u c 0 + 32 == get_or key_map_l c 0
        && (not (c == 0x0F) && (not (c == 0x48) && not (c == 0x50))))

letters_agree : all_below 90 lettered ≡ true
letters_agree = refl

get_or-in : (xs : List ℕ) (i : ℕ) (d e : ℕ) → i < length xs → get_or xs i d ≡ get_or xs i e
get_or-in [] i d e h = absurd (omega arith)
get_or-in (x ∷ xs) zero d e h = refl
get_or-in (x ∷ xs) (suc i) d e h = get_or-in xs i d e (omega arith)

get_or-out : (xs : List ℕ) (i d : ℕ) → length xs ≤ i → get_or xs i d ≡ d
get_or-out [] i d h = refl
get_or-out (x ∷ xs) zero d h = absurd (omega arith)
get_or-out (x ∷ xs) (suc i) d h = get_or-out xs i d (omega arith)

-- A key that is in both tables gives a character of its table, whatever stands behind the tables.
key_map-in :
    (beyond : Bool → ℕ → ℕ) (shift : Bool) (c : ℕ)
    → c < 90
    → key_map beyond shift c ≡ get_or (if shift then key_map_u else key_map_l) c 0
key_map-in beyond true c h = get_or-in key_map_u c (beyond true c) 0 h
key_map-in beyond false c h = get_or-in key_map_l c (beyond false c) 0 (omega arith)

-- The character of the key of a small letter.
abbrev pub lettered_char : Bool → Bool → ℕ → ℕ
lettered_char true shift small = small - 96
lettered_char false true small = small - 32
lettered_char false false small = small

not-true : (b : Bool) → not b ≡ true → b ≡ false
not-true true e = cc
not-true false e = refl

in_table :
    (shift : Bool) (c : ℕ)
    → get_or (if shift then key_map_u else key_map_l) c 0
      ≡ (if shift then get_or key_map_u c 0 else get_or key_map_l c 0)
in_table true c = refl
in_table false c = refl

by_modifiers :
    (ctrl shift : Bool) (small capital x : ℕ)
    → x ≡ (if shift then capital else small)
    → capital + 32 ≡ small
    → 97 ≤ small
    → small ≤ 122
    → (if ctrl && not (x == 0) then controlled x else x) ≡ lettered_char ctrl shift small
by_modifiers true true small capital x e f a b = ground arith
by_modifiers true false small capital x e f a b = ground arith
by_modifiers false true small capital x e f a b = omega arith
by_modifiers false false small capital x e f a b = e

-- Whether caps lock is on or not, a letter key gives its small letter, with shift its capital letter, and
-- with control, whatever shift is, the place of the letter in the alphabet.
pub get_char-letter :
    (beyond : Bool → ℕ → ℕ) (k : Keyboard)
    → k.not_char < 90
    → is_letter k.not_char ≡ true
    → (get_char_from_keyboard beyond k).0
      ≡ lettered_char k.ctrl k.shift (get_or key_map_l k.not_char 0)
unfolding get_char_from_keyboard
get_char-letter beyond k h l =
    let c = k.not_char in
    let facts : lettered c ≡ true = all_below_lem 90 lettered letters_agree c h in
    let right : (get_or key_map_u c 0 + 32 == get_or key_map_l c 0
          && (not (c == 0x0F) && (not (c == 0x48) && not (c == 0x50))))
        ≡ true =
      rw l at facts in
    let f = &&_both (get_or key_map_u c 0 + 32 == get_or key_map_l c 0) _ right in
    let g = &&_both (not (c == 0x0F)) _ f.1 in
    let u = &&_both (not (c == 0x48)) _ g.1 in
    let high : ltb 0x80 c ≡ false = le→ltb 0x80 c (omega arith) in
    let small = &&_both (leb 97 (get_or key_map_l c 0)) _ l in
    rw (high, not-true _ g.0, not-true _ u.0, not-true _ u.1, key_map-in beyond k.shift c h)
      (by_modifiers k.ctrl k.shift (get_or key_map_l c 0) (get_or key_map_u c 0)
        (get_or (if k.shift then key_map_u else key_map_l) c 0) (in_table k.shift c)
        ((==_iff _ _).0 f.0) (leb→le _ _ small.0) (leb→le _ _ small.1))

ctrl_c_code :
    (beyond : Bool → ℕ → ℕ) (k : Keyboard)
    → k.ctrl ≡ true
    → (get_char_from_keyboard beyond (modify 0x2E k)).0 ≡ 3
unfolding modify
ctrl_c_code beyond k e =
    get_char-letter beyond (modify 0x2E k) (omega arith) refl
    ∙ ap (λ b. lettered_char b k.shift 99) e

-- Control and the key of the letter c kill the process in front, of which the terminal keeps its bytes.
pub ctrl_c_kills :
    (beyond : Bool → ℕ → ℕ) (foreground : Option ℕ) (k : Keyboard) (t : Tty)
    → k.ctrl ≡ true
    → let pushed = (keyboard_handler beyond foreground 0x2E k t).1 in
      (pushed.killed ≡ foreground) × (pushed.tty ≡ t)
unfolding keyboard_handler
ctrl_c_kills beyond foreground k t e =
    tty_handle_input-ctrl_c foreground (get_char_from_keyboard beyond (modify 0x2E k)).0 t
      (ctrl_c_code beyond k e)

-- With shift and without control, a scan code from 90 to 128 reads behind the table of capital letters.
pub shift_reads_beyond :
    (beyond : Bool → ℕ → ℕ) (k : Keyboard)
    → 90 ≤ k.not_char
    → k.not_char ≤ 128
    → k.shift ≡ true
    → k.ctrl ≡ false
    → (get_char_from_keyboard beyond k).0 ≡ beyond true k.not_char
unfolding get_char_from_keyboard
shift_reads_beyond beyond k lo hi s c =
    let high : ltb 0x80 k.not_char ≡ false = le→ltb 0x80 k.not_char hi in
    let tab : (k.not_char == 0x0F) ≡ false = ground arith in
    let up : (k.not_char == 0x48) ≡ false = ground arith in
    let down : (k.not_char == 0x50) ≡ false = ground arith in
    rw (c, high, tab, up, down, s) (get_or-out key_map_u k.not_char (beyond true k.not_char) lo)
