-- ===== src/Pipe/Runs.antt =====
-- Runs of Kernel/ipc/pipe.c on a pipe that holds the bytes 7 and 8 at the end of its buffer.
use tp2_kernel.Base.{
  ◌≡◌, refl, true, false, none, some, [], ◌∷◌, ◌++◌, All, arith, ◌==◌, if◌then◌else◌, update,
}
use tp2_kernel.Pipe.{
  Pipe, contents, got, read_turn, prefix, put, full, no_readers, write_turn, queued_up, write_wait,
  enqueue_writer, Round, kpipe_read, kpipe_write, kpipe_close,
}
use tp2_kernel.Pipe.Flow.{IsPipe}
use tp2_kernel.Pipe.Transfer.{Fair, ReadOk, kpipe_read-ReadOk}
use tp2_kernel.Pipe.Writing.{write_read_fifo}
use tp2_kernel.Pipe.Progress.{is_done, is_over, kpipe_read_progress, kpipe_write_progress}
use tp2_kernel.Base.{inl}
use tp2_kernel.Pipe.Closing.{Hangup, kpipe_close-Hangup, write_wait_strands}

abbrev sample : Pipe
sample = record {
  name = 112 ∷ [];
  buf = λ i. if i == 4095 then 7 else 8;
  r = 4095;
  w = 1;
  size = 2;
  readers = 1;
  writers = 1;
  unlinked = false;
  r_queue = [];
  w_queue = 5 ∷ [];
}

abbrev drained : Pipe
drained = record sample { r = 1; size = 0; w_queue = [] }

abbrev brimming : Pipe
brimming = record sample { w = 4095; size = 4096 }

abbrev stored : Pipe
stored = record sample { buf = update sample.buf 1 9; w = 2; size = 3 }

sample-IsPipe : IsPipe sample
sample-IsPipe = record { fits = omega arith; r_in = omega arith; w_eq = refl }

drained-IsPipe : IsPipe drained
drained-IsPipe = record { fits = omega arith; r_in = omega arith; w_eq = refl }

-- While the reader allocates, another process stores a byte.
abbrev busy : Round
busy = record { allocated = true; meanwhile = λ p. sample; asleep = λ p. p }

busy-Fair : All Fair (busy ∷ [])
busy-Fair = ((λ p v. sample-IsPipe, λ p v. v), tt)

kpipe_read-ReadOk_example :
    ReadOk (some 3) 1 (busy ∷ []) drained (kpipe_read (some 3) 1 (busy ∷ []) drained)
kpipe_read-ReadOk_example =
    kpipe_read-ReadOk (some 3) 1 (busy ∷ []) drained drained-IsPipe busy-Fair

write_runs : write_turn (9 ∷ []) sample ≡ put 1 none stored
unfolding write_turn
write_runs = refl

read_runs :
    read_turn 2 stored ≡ got (7 ∷ 8 ∷ []) (some 5) (record stored { r = 1; size = 1; w_queue = [] })
unfolding read_turn
read_runs = refl

write_read_fifo_example : 7 ∷ 8 ∷ 9 ∷ [] ≡ contents sample ++ prefix 1 (9 ∷ [])
write_read_fifo_example =
    write_read_fifo (9 ∷ []) 1 2 sample stored (record stored { r = 1; size = 1; w_queue = [] })
      none (some 5) (7 ∷ 8 ∷ []) sample-IsPipe (omega arith) (omega arith) write_runs read_runs

kpipe_close-Hangup_example : Hangup true false sample
kpipe_close-Hangup_example = kpipe_close-Hangup true false sample

write_wait_strands_example :
    (write_turn (9 ∷ []) brimming ≡ full)
    × (write_wait 6 (kpipe_close true false brimming).pipe
        ≡ queued_up (enqueue_writer 6 (kpipe_close true false brimming).pipe))
    × (write_turn (9 ∷ []) (kpipe_close true false brimming).pipe ≡ no_readers)
write_wait_strands_example = write_wait_strands 6 (9 ∷ []) brimming refl refl

-- While the process sleeps, others leave two bytes in the pipe.
abbrev slept : Round
slept = record { allocated = true; meanwhile = λ p. p; asleep = λ p. sample }

kpipe_read_progress_example : is_done (kpipe_read (some 3) 4 (slept ∷ []) drained) ≡ true
kpipe_read_progress_example =
    kpipe_read_progress 3 4 slept [] drained (omega arith) refl (λ q. inl (omega arith))

kpipe_write_progress_example : is_over (kpipe_write (some 3) (9 ∷ []) (slept ∷ []) brimming) ≡ true
kpipe_write_progress_example =
    kpipe_write_progress 3 (9 ∷ []) slept [] brimming (omega arith) refl (λ q. inl (omega arith))
