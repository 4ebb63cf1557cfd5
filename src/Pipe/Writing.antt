-- ===== src/Pipe/Writing.antt =====
-- Whole calls of `kpipe_write`, and a write that is read back (Kernel/ipc/pipe.c).
use tp2_kernel.Base.{
  ℕ, ◌-◌, ◌<◌, ◌≡◌, ◌≢◌, sym, ◌∙◌, true, Option, List, ◌++◌, ltb, ◌==◌, length, arith, Bool-cases,
  inl, inr,
}
use tp2_kernel.Pipe.{
  Pipe, pipe_cap, contents, copy_in, dequeue_reader, lesser, got, read_turn, prefix, put,
  write_turn, Round, Result, failed, done, blocked,
}
use tp2_kernel.Pipe.Moments.{WriterMoment, writer_waits}
use tp2_kernel.Pipe.Flow.{IsPipe, copy_in-CopiedIn, length-prefix}
use tp2_kernel.Pipe.Transfer.{dequeue_reader_ring, read_turn-got}

-- The section that wrote found the pipe `q` with a reader and with room, and put a prefix of `src`
-- behind what was there, as much of it as fits.
pub record Stored (src : List ℕ) (n : ℕ) (q p' : Pipe) : Type 0 where
  pub before : IsPipe q
  pub after : IsPipe p'
  pub flow : contents p' ≡ contents q ++ prefix n src
  pub amount : n ≡ lesser (pipe_cap - q.size) (length src)
  pub some_put : 0 < n
  pub has_reader : q.readers ≢ 0

write_turn-put :
    (src : List ℕ) (n : ℕ) (p p' : Pipe) (reader : Option ℕ)
    → IsPipe p
    → 0 < length src
    → write_turn src p ≡ put n reader p'
    → Stored src n p p'
unfolding write_turn
write_turn-put src n p p' reader v nz e = elim (Bool-cases (p.readers == 0)) [
  | inl broken ↦ absurd (ground arith)
  | inr ok ↦ elim (Bool-cases (ltb p.size pipe_cap)) [
    | inr no_room ↦ absurd (ground arith)
    | inl room ↦
        let k = lesser (pipe_cap - p.size) (length src) in
        let i = copy_in-CopiedIn (prefix k src) p v (ground (arith, length-prefix k src)) in
        let d = dequeue_reader_ring (copy_in (prefix k src) p) in
        let same_n : k ≡ n = ground arith in
        let same_pipe : (dequeue_reader (copy_in (prefix k src) p)).1 ≡ p' = ground arith in
        record {
          before = v;
          after = rw (← same_pipe) (d.1 i.valid);
          flow = rw (← same_n, ← same_pipe) (d.0 ∙ i.flow);
          amount = sym same_n;
          some_put = rw (← same_n) (ground arith);
          has_reader = λ z. absurd (ground arith);
        }
  ]
]

-- What a call of `kpipe_write` on the pipe `p` guarantees of its result: the bytes went in at a moment of
-- the call, and it still waits only at a moment without room and with a reader.
abbrev pub WriteOk : Option ℕ → List ℕ → List Round → Pipe → Result ℕ → Type 0
WriteOk current src rounds p (failed p') = IsPipe p'
WriteOk current src rounds p (done n reader p') =
    (q : Pipe) × WriterMoment current rounds p q × Stored src n q p'
WriteOk current src rounds p (blocked p') =
    IsPipe p' × WriterMoment current rounds p p' × (writer_waits p' ≡ true)

-- On a pipe with a reader and a writer, what one section writes the next section reads: after the
-- bytes that were there already, the same bytes in the same order.
pub write_read_fifo :
    (src : List ℕ) (n m : ℕ) (p p' p'' : Pipe) (reader writer : Option ℕ) (bytes : List ℕ)
    → IsPipe p
    → 0 < length src
    → 0 < m
    → write_turn src p ≡ put n reader p'
    → read_turn m p' ≡ got bytes writer p''
    → bytes ++ contents p'' ≡ contents p ++ prefix n src
write_read_fifo src n m p p' p'' reader writer bytes v nz mz ew er =
    let s = write_turn-put src n p p' reader v nz ew in
    let d = read_turn-got m p' p'' bytes writer s.after mz er in sym d.flow ∙ s.flow
