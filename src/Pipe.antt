-- ===== src/Pipe.antt =====
-- Kernel/ipc/pipe.c and Kernel/include/pipe.h: named pipes with blocking reads and writes.
-- A section between `irq_save` and `irq_restore` runs alone; what other processes do to the pipe
-- between two sections is an argument. A queue of waiters is the list of their processes' slots.
mod Runs
pub mod Flow
pub mod Moments
pub mod Transfer
pub mod Writing
pub mod Closing
pub mod Directory
pub mod Progress
use tp2_kernel.Base.{
  ℕ, zero, suc, ◌+◌, ◌-◌, ◌%◌, Bool, true, false, not, ◌&&◌, ◌||◌, Option, none, some, List, [],
  ◌∷◌, ◌++◌, ltb, leb, ◌==◌, if◌then◌else◌, update, length,
}
use tp2_kernel.Names.{same_name, name_copy, pipe_hash}
use tp2_kernel.Ring.{span}

-- PIPE_CAP
abbrev pub pipe_cap : ℕ
pipe_cap = 4096

-- `kpipe_t`
pub record Pipe : Type 0 where
  pub name : List ℕ
  pub buf : ℕ → ℕ
  pub r : ℕ
  pub w : ℕ
  pub size : ℕ
  pub readers : ℕ
  pub writers : ℕ
  pub unlinked : Bool
  pub r_queue : List ℕ
  pub w_queue : List ℕ

-- The bytes that are in the pipe, the next to be read first.
abbrev pub contents : Pipe → List ℕ
contents p = span p.buf pipe_cap p.r p.size

abbrev pub enqueue_reader : ℕ → Pipe → Pipe
enqueue_reader s p = record p { r_queue = p.r_queue ++ s ∷ [] }

abbrev pub enqueue_writer : ℕ → Pipe → Pipe
enqueue_writer s p = record p { w_queue = p.w_queue ++ s ∷ [] }

pub dequeue_reader : Pipe → Option ℕ × Pipe
dequeue_reader p = elim p.r_queue [
  | [] ↦ (none, p)
  | s ∷ rest ↦ (some s, record p { r_queue = rest })
]

pub dequeue_writer : Pipe → Option ℕ × Pipe
dequeue_writer p = elim p.w_queue [
  | [] ↦ (none, p)
  | s ∷ rest ↦ (some s, record p { w_queue = rest })
]

-- The `for` loop of `kpipe_read`: `n` bytes out of the buffer.
pub copy_out : ℕ → Pipe → List ℕ × Pipe
copy_out zero p = ([], p)
copy_out (suc n) p =
    let (bytes, q) = copy_out n (record p { r = (p.r + 1) % pipe_cap; size = p.size - 1 }) in
    (p.buf p.r ∷ bytes, q)

-- The `for` loop of `kpipe_write`: the bytes into the buffer.
pub copy_in : List ℕ → Pipe → Pipe
copy_in [] p = p
copy_in (c ∷ src) p =
    copy_in src (record p { buf = update p.buf p.w c; w = (p.w + 1) % pipe_cap; size = p.size + 1 })

-- `(a < b) ? a : b`
abbrev pub lesser : ℕ → ℕ → ℕ
lesser a b = if ltb a b then a else b

-- What the first section of a round of `kpipe_read` comes to: bytes with the writer to wake, the
-- end of the file, or a wait.
pub data ReadTurn : Type 0 where
  got : List ℕ → Option ℕ → Pipe → ReadTurn
  at_end : ReadTurn
  must_wait : ReadTurn

-- `total_read` is 0 in every round, since a round that copies returns.
pub read_turn : ℕ → Pipe → ReadTurn
unfolding copy_out dequeue_writer
read_turn n p =
    let (bytes, p') = copy_out (lesser p.size n) p in
    let (writer, p'') = dequeue_writer p' in
    if ltb 0 p.size then got bytes writer p'' else if p.writers == 0 then at_end else must_wait

-- The second section, after the waiter was allocated: queued, or to be tried again, or at the end.
pub data WaitTurn : Type 0 where
  queued_up : Pipe → WaitTurn
  again : WaitTurn
  ended : WaitTurn

pub read_wait : ℕ → Pipe → WaitTurn
read_wait current p =
    if ltb 0 p.size
    then again
    else if p.writers == 0
    then ended
    else queued_up (enqueue_reader current p)

-- What `kpipe_write` comes to in its first section: EPIPE, a number of bytes with the reader to
-- wake, or a wait.
pub data WriteTurn : Type 0 where
  no_readers : WriteTurn
  put : ℕ → Option ℕ → Pipe → WriteTurn
  full : WriteTurn

-- The first `n` bytes of the source.
pub prefix : ℕ → List ℕ → List ℕ
prefix zero src = []
prefix (suc n) [] = []
prefix (suc n) (c ∷ src) = c ∷ prefix n src

pub write_turn : List ℕ → Pipe → WriteTurn
unfolding copy_in dequeue_reader prefix
write_turn src p =
    let n = lesser (pipe_cap - p.size) (length src) in
    let (reader, p') = dequeue_reader (copy_in (prefix n src) p) in
    if p.readers == 0 then no_readers else if ltb p.size pipe_cap then put n reader p' else full

pub write_wait : ℕ → Pipe → WaitTurn
write_wait current p = if ltb p.size pipe_cap then again else queued_up (enqueue_writer current p)

-- What surrounds one round that has to wait: whether `mm_malloc` gives a waiter, and what the other
-- processes do to the pipe meanwhile and until this one runs again.
pub record Round : Type 0 where
  pub allocated : Bool
  pub meanwhile : Pipe → Pipe
  pub asleep : Pipe → Pipe

-- A call: it returns -1, or the bytes (for a write their number) with the process to wake, or it
-- still waits when the rounds are over.
pub data Result {ℓ} (A : Type ℓ) : Type ℓ where
  failed : Pipe → Result A
  done : A → Option ℕ → Pipe → Result A
  blocked : Pipe → Result A

-- The `while` loop of `kpipe_read`, for `n` bytes at most.
pub read_loop : Option ℕ → ℕ → List Round → Pipe → Result (List ℕ)
unfolding read_turn read_wait
read_loop current n [] p = elim (read_turn n p) [
  | got bytes writer p' ↦ done bytes writer p'
  | at_end ↦ done [] none p
  | must_wait ↦ elim current [ none ↦ failed p | some c ↦ blocked p ]
]
read_loop current n (o ∷ rest) p = elim (read_turn n p) [
  | got bytes writer p' ↦ done bytes writer p'
  | at_end ↦ done [] none p
  | must_wait ↦ elim current [
    | none ↦ failed p
    | some c ↦ elim o.allocated [
      | false ↦ failed (o.meanwhile p)
      | true ↦ elim (read_wait c (o.meanwhile p)) [
        | again ↦ read_loop current n rest (o.meanwhile p)
        | ended ↦ done [] none (o.meanwhile p)
        | queued_up p' ↦ read_loop current n rest (o.asleep p')
      ]
    ]
  ]
]

-- `kpipe_read(p, buf, n)` with a buffer that is not null, by the process in slot `current`.
pub kpipe_read : Option ℕ → ℕ → List Round → Pipe → Result (List ℕ)
unfolding read_loop
kpipe_read current n rounds p = if n == 0 then failed p else read_loop current n rounds p

-- The `while` loop of `kpipe_write`.
pub write_loop : Option ℕ → List ℕ → List Round → Pipe → Result ℕ
unfolding write_turn write_wait
write_loop current src [] p = elim (write_turn src p) [
  | no_readers ↦ failed p
  | put n reader p' ↦ done n reader p'
  | full ↦ elim current [ none ↦ failed p | some c ↦ blocked p ]
]
write_loop current src (o ∷ rest) p = elim (write_turn src p) [
  | no_readers ↦ failed p
  | put n reader p' ↦ done n reader p'
  | full ↦ elim current [
    | none ↦ failed p
    | some c ↦ elim o.allocated [
      | false ↦ failed (o.meanwhile p)
      | true ↦ elim (write_wait c (o.meanwhile p)) [
        | again ↦ write_loop current src rest (o.meanwhile p)
        | ended ↦ failed (o.meanwhile p)
        | queued_up p' ↦ write_loop current src rest (o.asleep p')
      ]
    ]
  ]
]

-- `kpipe_write(p, buf, n)` of the `n` bytes of `src`.
pub kpipe_write : Option ℕ → List ℕ → List Round → Pipe → Result ℕ
unfolding write_loop
kpipe_write current src rounds p =
    if length src == 0 then failed p else write_loop current src rounds p

-- What `kpipe_close` leaves: the pipe, the processes it wakes in order, readers before writers, and
-- whether the pipe was freed.
pub record Closed : Type 0 where
  pub pipe : Pipe
  pub woken : List ℕ
  pub freed : Bool

-- The loops that wake a whole queue, where no one queues up between two turns of them.
abbrev pub wake_readers : Pipe → List ℕ × Pipe
wake_readers p = (p.r_queue, record p { r_queue = [] })

abbrev pub wake_writers : Pipe → List ℕ × Pipe
wake_writers p = (p.w_queue, record p { w_queue = [] })

pub drop_end : Bool → Bool → Pipe → Pipe
drop_end was_read was_write p = record p {
  readers = if was_read then p.readers - 1 else p.readers;
  writers = if was_write then p.writers - 1 else p.writers;
}

pub kpipe_close : Bool → Bool → Pipe → Closed
unfolding drop_end
kpipe_close was_read was_write p =
    let q = drop_end was_read was_write p in
    let (rs, q') = if q.writers == 0 then wake_readers q else ([], q) in
    let (ws, q'') = if q.readers == 0 then wake_writers q' else ([], q') in
    record {
      pipe = q'';
      woken = rs ++ ws;
      freed = q.unlinked && (q.readers == 0 && q.writers == 0);
    }
