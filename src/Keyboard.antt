-- ===== src/Keyboard.antt =====
-- Kernel/drivers/keyboard.c: scan codes of the PS/2 keyboard, their modifiers and their characters.
pub mod Modifiers
pub mod Letters
mod Runs
use tp2_kernel.Base.{
  ℕ, ◌+◌, ◌-◌, ◌%◌, Bool, true, false, not, ◌&&◌, ◌||◌, Option, List, [], ◌∷◌, ltb, leb, ◌==◌,
  if◌then◌else◌, length, get_or,
}
use tp2_kernel.Tty.{Tty, Pushed, tty_handle_input}

-- The static variables of keyboard.c. A `char` that is kept in `retChar` is never negative here.
pub record Keyboard : Type 0 where
  pub not_char : ℕ
  pub ret_char : ℕ
  pub shift : Bool
  pub caps_lock : ℕ
  pub ctrl : Bool

-- `keyMapL`
abbrev pub key_map_l : List ℕ
key_map_l =
    0 ∷ 27 ∷ 49 ∷ 50 ∷ 51 ∷ 52 ∷ 53 ∷ 54 ∷ 55 ∷ 56 ∷ 57 ∷ 48 ∷ 45 ∷ 61 ∷ 8 ∷ 9 ∷ 113 ∷ 119 ∷ 101
    ∷ 114 ∷ 116 ∷ 121 ∷ 117 ∷ 105 ∷ 111 ∷ 112 ∷ 91 ∷ 93 ∷ 10 ∷ 0 ∷ 97 ∷ 115 ∷ 100 ∷ 102 ∷ 103 ∷ 104
    ∷ 106 ∷ 107 ∷ 108 ∷ 59 ∷ 39 ∷ 96 ∷ 0 ∷ 92 ∷ 122 ∷ 120 ∷ 99 ∷ 118 ∷ 98 ∷ 110 ∷ 109 ∷ 44 ∷ 46 ∷ 47
    ∷ 0 ∷ 42 ∷ 0 ∷ 32 ∷ 0 ∷ 0 ∷ 0 ∷ 0 ∷ 0 ∷ 0 ∷ 0 ∷ 0 ∷ 0 ∷ 0 ∷ 0 ∷ 0 ∷ 0 ∷ 0 ∷ 38 ∷ 0 ∷ 45 ∷ 37 ∷ 0
    ∷ 39 ∷ 43 ∷ 0 ∷ 40 ∷ 0 ∷ 0 ∷ 0 ∷ 0 ∷ 0 ∷ 0 ∷ 0 ∷ 0 ∷ 0 ∷ 0 ∷ 0 ∷ 0 ∷ 0 ∷ 0 ∷ 0 ∷ 0 ∷ 0 ∷ []

-- `keyMapU`
abbrev pub key_map_u : List ℕ
key_map_u =
    0 ∷ 27 ∷ 33 ∷ 64 ∷ 35 ∷ 36 ∷ 37 ∷ 94 ∷ 38 ∷ 42 ∷ 40 ∷ 41 ∷ 95 ∷ 43 ∷ 8 ∷ 9 ∷ 81 ∷ 87 ∷ 69 ∷ 82
    ∷ 84 ∷ 89 ∷ 85 ∷ 73 ∷ 79 ∷ 80 ∷ 123 ∷ 125 ∷ 10 ∷ 0 ∷ 65 ∷ 83 ∷ 68 ∷ 70 ∷ 71 ∷ 72 ∷ 74 ∷ 75 ∷ 76
    ∷ 58 ∷ 34 ∷ 126 ∷ 0 ∷ 124 ∷ 90 ∷ 88 ∷ 67 ∷ 86 ∷ 66 ∷ 78 ∷ 77 ∷ 60 ∷ 62 ∷ 63 ∷ 0 ∷ 42 ∷ 0 ∷ 32
    ∷ 0 ∷ 0 ∷ 0 ∷ 0 ∷ 0 ∷ 0 ∷ 0 ∷ 0 ∷ 0 ∷ 0 ∷ 0 ∷ 0 ∷ 0 ∷ 0 ∷ 0 ∷ 0 ∷ 45 ∷ 0 ∷ 0 ∷ 0 ∷ 43 ∷ 0 ∷ 0
    ∷ 0 ∷ 0 ∷ 0 ∷ 0 ∷ 0 ∷ 0 ∷ 0 ∷ 0 ∷ 0 ∷ []

-- `keyMap[shift][notChar]`; `beyond` is what stands in memory behind the two tables.
abbrev pub key_map : (Bool → ℕ → ℕ) → Bool → ℕ → ℕ
key_map beyond true c = get_or key_map_u c (beyond true c)
key_map beyond false c = get_or key_map_l c (beyond false c)

-- The modifiers after one scan code, in `keyboard_handler`.
pub modify : ℕ → Keyboard → Keyboard
modify c k = record k {
  not_char = c;
  shift =
      if c == 0xAA || c == 0xB6 then false else if c == 0x2A || c == 0x36 then true else k.shift;
  caps_lock = if c == 0x3A then (k.caps_lock + 1) % 2 else k.caps_lock;
  ctrl = if c == 0x9D then false else if c == 0x1D then true else k.ctrl;
}

-- The character of the key, before the control key is looked at.
abbrev pub plain : (Bool → ℕ → ℕ) → Keyboard → ℕ
plain beyond k =
    if ltb 0x80 k.not_char || k.not_char == 0x0F
    then 0
    else if k.not_char == 0x48 || k.not_char == 0x50
    then k.not_char
    else key_map beyond k.shift k.not_char

-- 97 is 'a', 122 'z', 65 'A', 90 'Z'.
abbrev pub controlled : ℕ → ℕ
controlled c =
    if leb 97 c && leb c 122 then c - 97 + 1 else if leb 65 c && leb c 90 then c - 65 + 1 else c

-- `getCharFromKeyboard`: the character, and the keyboard.
pub get_char_from_keyboard : (Bool → ℕ → ℕ) → Keyboard → ℕ × Keyboard
get_char_from_keyboard beyond k =
    let c = plain beyond k in
    let ret = if k.ctrl && not (c == 0) then controlled c else c in
    (ret, record k { ret_char = ret })

-- `keyboard_handler`, with what `proc_get_foreground_pid` answers.
pub keyboard_handler : (Bool → ℕ → ℕ) → Option ℕ → ℕ → Keyboard → Tty → Keyboard × Pushed
unfolding modify get_char_from_keyboard
keyboard_handler beyond foreground c k t =
    let (ascii, k') = get_char_from_keyboard beyond (modify c k) in
    (k', tty_handle_input foreground ascii t)

abbrev pub set_cero_char : Keyboard → Keyboard
set_cero_char k = record k { not_char = 0 }

abbrev pub get_not_char : Keyboard → ℕ
get_not_char k = k.not_char
