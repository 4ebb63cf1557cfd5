-- ===== src/Pipe/Closing.antt =====
-- `kpipe_close` of Kernel/ipc/pipe.c: whom it wakes, what it leaves and when it frees.
use tp2_kernel.Base.{
  ℕ, ◌+◌, ◌-◌, ◌≤◌, ◌↔◌, if◌then◌else◌, ◌≡◌, Bool, true, false, List, [], arith, count,
  count-append,
}
use tp2_kernel.Pipe.{
  Pipe, pipe_cap, contents, no_readers, full, write_turn, queued_up, write_wait, enqueue_writer,
  drop_end, kpipe_close,
}
use tp2_kernel.Pipe.Flow.{IsPipe}

-- What a close does to the waiters of the pipe and to its bytes.
pub record Hangup (was_read was_write : Bool) (p : Pipe) : Type 0 where
  pub readers :
      (kpipe_close was_read was_write p).pipe.readers ≡ p.readers - (if was_read then 1 else 0)
  pub writers :
      (kpipe_close was_read was_write p).pipe.writers ≡ p.writers - (if was_write then 1 else 0)
  pub no_writers :
      p.writers ≤ (if was_write then 1 else 0)
      → (kpipe_close was_read was_write p).pipe.r_queue ≡ []
  pub no_reader :
      p.readers ≤ (if was_read then 1 else 0) → (kpipe_close was_read was_write p).pipe.w_queue ≡ []
  pub kept :
      (s : ℕ)
      → count s (kpipe_close was_read was_write p).woken
          + (count s (kpipe_close was_read was_write p).pipe.r_queue
              + count s (kpipe_close was_read was_write p).pipe.w_queue)
        ≡ count s p.r_queue + count s p.w_queue
  pub freed : ((kpipe_close was_read was_write p).freed ≡ true) ↔ (
      (p.unlinked ≡ true)
      × (p.readers ≤ (if was_read then 1 else 0))
      × (p.writers ≤ (if was_write then 1 else 0)))
  pub ring : contents (kpipe_close was_read was_write p).pipe ≡ contents p
  pub valid : IsPipe p → IsPipe (kpipe_close was_read was_write p).pipe

-- A close takes off the ends that it is given and loses no waiter: each is woken or stays in its queue. No reader stays when the last writer
-- is gone and no writer when the last reader is gone; the bytes in the pipe are left as they were. The
-- pipe is freed exactly if it was unlinked and has no end left.
pub kpipe_close-Hangup : (was_read was_write : Bool) (p : Pipe) → Hangup was_read was_write p
unfolding kpipe_close drop_end
kpipe_close-Hangup was_read was_write p = record {
  readers = ground arith;
  writers = ground arith;
  freed = ((λ e. (ground arith, ground arith, ground arith)), λ (u, r, w). ground (arith, u, r, w));
  no_writers = λ e. ground arith;
  no_reader = λ e. ground arith;
  kept = λ s. ground (arith, count-append s p.r_queue p.w_queue, count-append s p.r_queue []);
  ring = ground arith;
  valid = λ v. ground arith;
}

-- A writer that found the pipe full, and whose waiter is allocated while the last reader closes, puts
-- itself in the queue of a pipe without readers, where its next section would have returned -1.
pub write_wait_strands :
    (c : ℕ) (src : List ℕ) (p : Pipe)
    → p.size ≡ pipe_cap
    → p.readers ≡ 1
    → (write_turn src p ≡ full)
      × (write_wait c (kpipe_close true false p).pipe
          ≡ queued_up (enqueue_writer c (kpipe_close true false p).pipe))
      × (write_turn src (kpipe_close true false p).pipe ≡ no_readers)
unfolding write_turn write_wait kpipe_close drop_end
write_wait_strands c src p e r = (ground arith, ground arith, ground arith)
