-- ===== src/Keyboard/Runs.antt =====
-- Runs of Kernel/drivers/keyboard.c: control held, and the keys of shift.
use tp2_kernel.Base.{◌≡◌, refl, true, false, arith}
use tp2_kernel.Keyboard.{Keyboard, get_char_from_keyboard}
use tp2_kernel.Keyboard.Letters.{get_char-letter, shift_reads_beyond}

abbrev with_ctrl : Keyboard
with_ctrl = record { not_char = 0x1E; ret_char = 0; shift = false; caps_lock = 0; ctrl = true }

-- The left Windows key while shift is held.
abbrev windows_key : Keyboard
windows_key = record { not_char = 91; ret_char = 0; shift = true; caps_lock = 0; ctrl = false }

-- Control and a are 1.
get_char-letter_example : (get_char_from_keyboard (λ s c. 7) with_ctrl).0 ≡ 1
get_char-letter_example = get_char-letter (λ s c. 7) with_ctrl (omega arith) refl

-- What stands behind the table is taken for a character.
windows_key_beyond : (get_char_from_keyboard (λ s c. 7) windows_key).0 ≡ 7
windows_key_beyond = shift_reads_beyond (λ s c. 7) windows_key (omega arith) (omega arith) refl refl
