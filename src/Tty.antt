-- ===== src/Tty.antt =====
-- Kernel/fs/tty.c: the input side of the terminal.
-- The sections between `irq_save_local` and `irq_restore_local` run alone; a queue of waiters is the
-- list of their processes' slots. What is drawn on the screen is not modelled.
pub mod Input
pub mod Reading
mod Runs
use tp2_kernel.Base.{
  ℕ, zero, suc, ◌+◌, ◌-◌, ◌%◌, Bool, true, false, not, ◌&&◌, ◌||◌, Option, none, some, List, [],
  ◌∷◌, ◌++◌, ltb, leb, ◌==◌, if◌then◌else◌, update,
}
use tp2_kernel.Ring.{span}

-- TTY_BUFFER_CAP
abbrev pub tty_cap : ℕ
tty_cap = 256

-- `struct tty`; `fg_pid` -1 is `none`.
pub record Tty : Type 0 where
  pub buffer : ℕ → ℕ
  pub head : ℕ
  pub tail : ℕ
  pub size : ℕ
  pub eof : Bool
  pub waiters : List ℕ
  pub fg_pid : Option ℕ

-- The bytes that wait to be read, the next first.
abbrev pub typed : Tty → List ℕ
typed t = span t.buffer tty_cap t.head t.size

-- `tty_default` at its first call.
abbrev pub tty_default : Tty
tty_default = record {
  buffer = λ i. 0;
  head = 0;
  tail = 0;
  size = 0;
  eof = false;
  waiters = [];
  fg_pid = none;
}

pub enqueue_waiter : ℕ → Tty → Tty
enqueue_waiter s t = record t { waiters = t.waiters ++ s ∷ [] }

pub dequeue_waiter : Tty → Option ℕ × Tty
dequeue_waiter t = elim t.waiters [ [] ↦ (none, t) | s ∷ q ↦ (some s, record t { waiters = q }) ]

-- The `for` loop of `tty_read`.
pub take_bytes : ℕ → Tty → List ℕ × Tty
take_bytes zero t = ([], t)
take_bytes (suc n) t =
    let (bytes, t') =
      take_bytes n (record t { head = (t.head + 1) % tty_cap; size = t.size - 1 }) in
    (t.buffer t.head ∷ bytes, t')

-- The first section of a round of `tty_read`: bytes, none at an end of file, or a wait.
pub data InputTurn : Type 0 where
  got : List ℕ → Tty → InputTurn
  must_wait : InputTurn

pub input_turn : ℕ → Tty → InputTurn
unfolding take_bytes
input_turn n t =
    let (bytes, t') = take_bytes (if ltb t.size n then t.size else n) t in
    if ltb 0 t.size
    then got bytes t'
    else if t.eof
    then got [] (record t { eof = false })
    else must_wait

-- A round that waits: whether the allocation of the waiter succeeds, what happens to the terminal
-- during it, and what happens until the process runs again.
pub record Pause : Type 0 where
  pub allocated : Bool
  pub meanwhile : Tty → Tty
  pub asleep : Tty → Tty

-- -1, the bytes, or a call that still waits.
pub data InputResult : Type 0 where
  failed : Tty → InputResult
  done : List ℕ → Tty → InputResult
  blocked : Tty → InputResult

-- The terminal after the second section, which queues the process unless there is something to read.
pub queue_up : ℕ → Pause → Tty → Tty
unfolding enqueue_waiter
queue_up c o t =
    let t' = o.meanwhile t in if ltb 0 t'.size || t'.eof then t' else o.asleep (enqueue_waiter c t')

-- The `while` loop of `tty_read`.
pub tty_read_loop : Option ℕ → ℕ → List Pause → Tty → InputResult
unfolding input_turn queue_up
tty_read_loop current n [] t = elim (input_turn n t) [
  | got bytes t' ↦ done bytes t'
  | must_wait ↦ elim current [ none ↦ failed t | some c ↦ blocked t ]
]
tty_read_loop current n (o ∷ rest) t = elim (input_turn n t) [
  | got bytes t' ↦ done bytes t'
  | must_wait ↦ elim current [
    | none ↦ failed t
    | some c ↦ elim o.allocated [
      | false ↦ failed (o.meanwhile t)
      | true ↦ tty_read_loop current n rest (queue_up c o t)
    ]
  ]
]

-- `tty_read` into a buffer that is not null, by the process in slot `current`.
pub tty_read : Option ℕ → ℕ → List Pause → Tty → InputResult
unfolding tty_read_loop
tty_read current n rounds t = if n == 0 then failed t else tty_read_loop current n rounds t

-- What a key does: the terminal, the process to wake, and the process to kill.
pub record Pushed : Type 0 where
  pub tty : Tty
  pub woken : Option ℕ
  pub killed : Option ℕ

-- The part of `tty_push_char` that stores a byte, over the oldest one if the buffer is full.
pub store_char : ℕ → Tty → Tty
store_char c t =
    let t' =
      if t.size == tty_cap
      then record t { head = (t.head + 1) % tty_cap; size = t.size - 1 }
      else t in
    record t' {
      buffer = update t'.buffer t'.tail c;
      tail = (t'.tail + 1) % tty_cap;
      size = t'.size + 1;
    }

-- `tty_push_char`, given what `proc_get_foreground_pid` answers: 3 is Ctrl+C, 4 the end of the file.
pub tty_push_char : Option ℕ → ℕ → Tty → Pushed
unfolding store_char dequeue_waiter
tty_push_char foreground c t =
    let (s, ended) = dequeue_waiter (record t { eof = true }) in
    let (s', stored) = dequeue_waiter (store_char c t) in
    if c == 3
    then record { tty = t; woken = none; killed = foreground }
    else if c == 4
    then record { tty = ended; woken = s; killed = none }
    else record { tty = stored; woken = s'; killed = none }

pub tty_handle_input : Option ℕ → ℕ → Tty → Pushed
unfolding tty_push_char
tty_handle_input foreground ascii t =
    if ascii == 0
    then record { tty = t; woken = none; killed = none }
    else tty_push_char foreground ascii t

pub tty_set_foreground : Option ℕ → Tty → Tty
tty_set_foreground pid t = record t { fg_pid = pid }

pub tty_can_read : ℕ → Tty → Bool
tty_can_read pid t = elim t.fg_pid [ none ↦ false | some p ↦ p == pid ]

abbrev pub tty_get_foreground : Tty → Option ℕ
tty_get_foreground t = t.fg_pid
