-- ===== src/Pipe/Moments.antt =====
-- The states of a pipe that a blocking call of Kernel/ipc/pipe.c finds when one of its sections runs.
use tp2_kernel.Base.{
  ℕ, ◌≡◌, refl, Bool, true, false, not, ◌&&◌, Option, none, some, List, ◌∷◌, ltb, ◌==◌,
}
use tp2_kernel.Pipe.{Pipe, Round, pipe_cap, enqueue_reader, enqueue_writer}

-- From a pipe `p` where the call has to wait, it comes to the pipe that the others left while its waiter
-- was allocated, if it does not have to sleep there, and to what they left when it is woken, if it
-- slept in its queue.
pub data Moment (waits sleeps : Pipe → Bool) (enqueue : Pipe → Pipe)
    : List Round → Pipe → Pipe → Type 0 where
  now : (rounds : List Round) (p : Pipe) → Moment waits sleeps enqueue rounds p p
  tried_again :
      (o : Round) (rest : List Round) (p q : Pipe)
      → waits p ≡ true
      → o.allocated ≡ true
      → sleeps (o.meanwhile p) ≡ false
      → Moment waits sleeps enqueue rest (o.meanwhile p) q
      → Moment waits sleeps enqueue (o ∷ rest) p q
  slept :
      (o : Round) (rest : List Round) (p q : Pipe)
      → waits p ≡ true
      → o.allocated ≡ true
      → sleeps (o.meanwhile p) ≡ true
      → Moment waits sleeps enqueue rest (o.asleep (enqueue (o.meanwhile p))) q
      → Moment waits sleeps enqueue (o ∷ rest) p q

-- Nothing to read, and a writer that may still write.
abbrev pub reader_waits : Pipe → Bool
reader_waits p = not (ltb 0 p.size) && not (p.writers == 0)

-- No room to write, the readers looked at.
abbrev pub writer_waits : Pipe → Bool
writer_waits p = not (p.readers == 0) && not (ltb p.size pipe_cap)

-- The second section of a write looks at the room alone.
abbrev pub writer_sleeps : Pipe → Bool
writer_sleeps p = not (ltb p.size pipe_cap)

-- Without a current process there is one moment only.
abbrev pub ReaderMoment : Option ℕ → List Round → Pipe → Pipe → Type 0
ReaderMoment none rounds p q = q ≡ p
ReaderMoment (some c) rounds p q = Moment reader_waits reader_waits (enqueue_reader c) rounds p q

abbrev pub WriterMoment : Option ℕ → List Round → Pipe → Pipe → Type 0
WriterMoment none rounds p q = q ≡ p
WriterMoment (some c) rounds p q = Moment writer_waits writer_sleeps (enqueue_writer c) rounds p q

pub ReaderMoment-now :
    (current : Option ℕ) (rounds : List Round) (p : Pipe) → ReaderMoment current rounds p p
ReaderMoment-now none rounds p = refl
ReaderMoment-now (some c) rounds p = now rounds p

pub WriterMoment-now :
    (current : Option ℕ) (rounds : List Round) (p : Pipe) → WriterMoment current rounds p p
WriterMoment-now none rounds p = refl
WriterMoment-now (some c) rounds p = now rounds p
