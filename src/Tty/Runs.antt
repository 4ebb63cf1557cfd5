-- ===== src/Tty/Runs.antt =====
-- Runs of Kernel/fs/tty.c on a terminal with two bytes typed.
use tp2_kernel.Base.{refl, true, some, [], ◌∷◌, All, arith}
use tp2_kernel.Tty.{Tty, tty_default, Pause, tty_read}
use tp2_kernel.Tty.Input.{IsTty, Keyed, tty_push_char-Keyed}
use tp2_kernel.Tty.Reading.{Tame, InputOk, tty_read-InputOk}

abbrev sample : Tty
sample = record tty_default { buffer = λ i. 65; head = 255; tail = 1; size = 2; waiters = 3 ∷ [] }

sample-IsTty : IsTty sample
sample-IsTty = record { fits = omega arith; head_in = omega arith; tail_eq = refl }

default-IsTty : IsTty tty_default
default-IsTty = record { fits = omega arith; head_in = omega arith; tail_eq = refl }

-- While the reader sleeps, two bytes are typed.
abbrev typing : Pause
typing = record { allocated = true; meanwhile = λ t. t; asleep = λ t. sample }

typing-Tame : All Tame (typing ∷ [])
typing-Tame = ((λ t v. v, λ t v. sample-IsTty), tt)

tty_push_char-Keyed_example : Keyed (some 2) 66 sample
tty_push_char-Keyed_example = tty_push_char-Keyed (some 2) 66 sample sample-IsTty

tty_read-InputOk_example :
    InputOk (some 2) 10 (typing ∷ []) tty_default (tty_read (some 2) 10 (typing ∷ []) tty_default)
tty_read-InputOk_example =
    tty_read-InputOk (some 2) 10 (typing ∷ []) tty_default default-IsTty (omega arith) typing-Tame
