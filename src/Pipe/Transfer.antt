-- ===== src/Pipe/Transfer.antt =====
-- Whole calls of `kpipe_read` (Kernel/ipc/pipe.c).
use tp2_kernel.Base.{
  ℕ, zero, suc, ◌<◌, ◌≡◌, ◌≢◌, refl, ap, sym, ◌∙◌, false, Option, none, some, List, [], ◌∷◌, ◌++◌,
  true, ltb, ◌==◌, length, arith, Bool-cases, inl, inr, ◌⊎◌, All,
}
use tp2_kernel.Pipe.{
  Pipe, contents, copy_out, dequeue_reader, dequeue_writer, lesser, ReadTurn, got, at_end,
  must_wait, read_turn, WaitTurn, queued_up, again, ended, read_wait, enqueue_reader, Round, Result,
  failed, done, blocked, read_loop, kpipe_read,
}
use tp2_kernel.Pipe.Moments.{now, tried_again, slept, ReaderMoment, ReaderMoment-now, reader_waits}
use tp2_kernel.Pipe.Flow.{IsPipe, copy_out-CopiedOut}

-- Taking a waiter off its queue leaves the ring buffer alone.
dequeue_writer_ring :
    (p : Pipe)
    → (contents (dequeue_writer p).1 ≡ contents p) × (IsPipe p → IsPipe (dequeue_writer p).1)
unfolding dequeue_writer
dequeue_writer_ring p = (ground arith, λ v. ground arith)

pub dequeue_reader_ring :
    (p : Pipe)
    → (contents (dequeue_reader p).1 ≡ contents p) × (IsPipe p → IsPipe (dequeue_reader p).1)
unfolding dequeue_reader
dequeue_reader_ring p = (ground arith, λ v. ground arith)

-- The section that read `bytes` found them at the front of the pipe `q` and took as many as it could.
pub record Delivered (n : ℕ) (bytes : List ℕ) (q p' : Pipe) : Type 0 where
  pub before : IsPipe q
  pub after : IsPipe p'
  pub flow : contents q ≡ bytes ++ contents p'
  pub amount : length bytes ≡ lesser q.size n
  pub at_eof : bytes ≡ [] → (q.size ≡ 0) × (q.writers ≡ 0)

pub read_turn-got :
    (n : ℕ) (p p' : Pipe) (bytes : List ℕ) (writer : Option ℕ)
    → IsPipe p
    → 0 < n
    → read_turn n p ≡ got bytes writer p'
    → Delivered n bytes p p'
unfolding read_turn
read_turn-got n p p' bytes writer v nz e = elim (Bool-cases (ltb 0 p.size)) [
  | inr empty ↦ absurd (ground arith)
  | inl some_there ↦
      let k = lesser p.size n in
      let o = copy_out-CopiedOut k p v (ground arith) in
      let d = dequeue_writer_ring (copy_out k p).1 in
      let same_bytes : (copy_out k p).0 ≡ bytes = ground arith in
      let same_pipe : (dequeue_writer (copy_out k p).1).1 ≡ p' = ground arith in
      record {
        before = v;
        after = rw (← same_pipe) (d.1 o.valid);
        flow = rw (← same_bytes, ← same_pipe) (o.flow ∙ ap (◌++◌ (copy_out k p).0) (sym d.0));
        amount = rw (← same_bytes) o.amount;
        at_eof = λ z. absurd (ground (arith, o.amount, ap length (same_bytes ∙ z)));
      }
]

read_turn-at_end : (n : ℕ) (p : Pipe) → IsPipe p → read_turn n p ≡ at_end → Delivered n [] p p
unfolding read_turn
read_turn-at_end n p v e =
    let drained : p.size ≡ 0 = ground arith in
    record {
      before = v;
      after = v;
      flow = refl;
      amount = ground arith;
      at_eof = λ z. (drained, ground arith);
    }

read_wait-ended : (c : ℕ) (n : ℕ) (p : Pipe) → IsPipe p → read_wait c p ≡ ended → Delivered n [] p p
unfolding read_wait
read_wait-ended c n p v e =
    let drained : p.size ≡ 0 = ground arith in
    record {
      before = v;
      after = v;
      flow = refl;
      amount = ground arith;
      at_eof = λ z. (drained, ground arith);
    }

read_wait-queued : (c : ℕ) (p p' : Pipe) → IsPipe p → read_wait c p ≡ queued_up p' → IsPipe p'
unfolding read_wait
read_wait-queued c p p' v e =
    let same : enqueue_reader c p ≡ p' = ground arith in
    rw (← same) (record { fits = v.fits; r_in = v.r_in; w_eq = v.w_eq })

read_wait-again : (c : ℕ) (p : Pipe) → read_wait c p ≡ again → reader_waits p ≡ false
unfolding read_wait
read_wait-again c p e = ground arith

read_wait-at_end : (c : ℕ) (p : Pipe) → read_wait c p ≡ ended → reader_waits p ≡ false
unfolding read_wait
read_wait-at_end c p e = ground arith

read_wait-sleeps :
    (c : ℕ) (p p' : Pipe)
    → read_wait c p ≡ queued_up p'
    → (reader_waits p ≡ true) × (enqueue_reader c p ≡ p')
unfolding read_wait
read_wait-sleeps c p p' e = (ground arith, ground arith)

-- The other processes keep the ring buffer in order.
abbrev pub Fair : Round → Type 0
Fair o =
    ((p : Pipe) → IsPipe p → IsPipe (o.meanwhile p)) × ((p : Pipe) → IsPipe p → IsPipe (o.asleep p))

-- What a call of `kpipe_read` on the pipe `p` guarantees of its result: bytes come from a moment of the
-- call, and it still waits only at a moment without bytes and with a writer.
abbrev pub ReadOk : Option ℕ → ℕ → List Round → Pipe → Result (List ℕ) → Type 0
ReadOk current n rounds p (failed p') = IsPipe p'
ReadOk current n rounds p (done bytes writer p') =
    (q : Pipe) × ReaderMoment current rounds p q × Delivered n bytes q p'
ReadOk current n rounds p (blocked p') =
    IsPipe p' × ReaderMoment current rounds p p' × (reader_waits p' ≡ true)

-- The moments of the rest of a call are moments of the call.
later :
    (current : Option ℕ) (n : ℕ) (rest rounds : List Round) (p p₁ : Pipe) (r : Result (List ℕ))
    → ((q : Pipe) → ReaderMoment current rest p₁ q → ReaderMoment current rounds p q)
    → ReadOk current n rest p₁ r
    → ReadOk current n rounds p r
later current n rest rounds p p₁ (failed p') go ok = ok
later current n rest rounds p p₁ (done bytes writer p') go (q, m, d) = (q, go q m, d)
later current n rest rounds p p₁ (blocked p') go (v, m, w) = (v, go p' m, w)

pub data Turned (n : ℕ) (p : Pipe) : ReadTurn → Type 0 where
  got_ok :
      (bytes : List ℕ) (writer : Option ℕ) (p' : Pipe)
      → Delivered n bytes p p'
      → Turned n p (got bytes writer p')
  end_ok : Delivered n [] p p → Turned n p at_end
  wait_ok : Turned n p must_wait

read_turn-Turned : (n : ℕ) (p : Pipe) → IsPipe p → 0 < n → Turned n p (read_turn n p)
read_turn-Turned n p v nz = by_turn (read_turn n p) refl
  where
    by_turn : (t : ReadTurn) → read_turn n p ≡ t → Turned n p t
    by_turn (got bytes writer p') e =
        got_ok bytes writer p' (read_turn-got n p p' bytes writer v nz e)
    by_turn at_end e = end_ok (read_turn-at_end n p v e)
    by_turn must_wait e = wait_ok

read_turn-waits : (n : ℕ) (p : Pipe) → read_turn n p ≡ must_wait → reader_waits p ≡ true
unfolding read_turn
read_turn-waits n p e = ground arith

-- A round that has to wait, with its waiter allocated.
read_wait-ReadOk :
    (c n : ℕ) (o : Round) (rest : List Round) (p : Pipe)
    → IsPipe (o.meanwhile p)
    → ((q : Pipe) → IsPipe q → IsPipe (o.asleep q))
    → ((q : Pipe) → IsPipe q → ReadOk (some c) n rest q (read_loop (some c) n rest q))
    → o.allocated ≡ true
    → reader_waits p ≡ true
    → ReadOk (some c) n (o ∷ rest) p (elim (read_wait c (o.meanwhile p)) [
      | again ↦ read_loop (some c) n rest (o.meanwhile p)
      | ended ↦ done [] none (o.meanwhile p)
      | queued_up p' ↦ read_loop (some c) n rest (o.asleep p')
    ])
read_wait-ReadOk c n o rest p v fair go a w = by_turn (read_wait c (o.meanwhile p)) refl
  where
    by_turn :
        (t : WaitTurn)
        → read_wait c (o.meanwhile p) ≡ t
        → ReadOk (some c) n (o ∷ rest) p (elim t [
          | again ↦ read_loop (some c) n rest (o.meanwhile p)
          | ended ↦ done [] none (o.meanwhile p)
          | queued_up p' ↦ read_loop (some c) n rest (o.asleep p')
        ])
    by_turn again e =
        later (some c) n rest (o ∷ rest) p (o.meanwhile p)
          (read_loop (some c) n rest (o.meanwhile p))
          (λ q m. tried_again o rest p q w a (read_wait-again c (o.meanwhile p) e) m)
          (go (o.meanwhile p) v)
    by_turn ended e = (
      o.meanwhile p,
      tried_again o rest p (o.meanwhile p) w a (read_wait-at_end c (o.meanwhile p) e)
          (now rest (o.meanwhile p)),
      read_wait-ended c n (o.meanwhile p) v e,
    )
    by_turn (queued_up p') e =
        let (s, same) = read_wait-sleeps c (o.meanwhile p) p' e in
        later (some c) n rest (o ∷ rest) p (o.asleep p') (read_loop (some c) n rest (o.asleep p'))
          (λ q m. slept o rest p q w a s (rw same m))
          (go (o.asleep p') (fair p' (read_wait-queued c (o.meanwhile p) p' v e)))

-- A round that has to wait.
read_round :
    (n : ℕ) (current : Option ℕ) (o : Round) (rest : List Round) (p : Pipe)
    → IsPipe p
    → Fair o
    → ((q : Pipe) → IsPipe q → ReadOk current n rest q (read_loop current n rest q))
    → read_turn n p ≡ must_wait
    → ReadOk current n (o ∷ rest) p (read_loop current n (o ∷ rest) p)
unfolding read_loop
read_round n none o rest p v fair go e = rw (e, read_loop) v
read_round n (some c) o rest p v fair go e = elim (Bool-cases o.allocated) [
  | inr no_memory ↦ rw (e, read_loop) (simp no_memory (fair.0 p v))
  | inl memory ↦
      rw (e, read_loop)
        (simp memory
          (read_wait-ReadOk c n o rest p (fair.0 p v) fair.1 go memory (read_turn-waits n p e)))
]

read_last :
    (n : ℕ) (current : Option ℕ) (p : Pipe)
    → IsPipe p
    → read_turn n p ≡ must_wait
    → ReadOk current n [] p (read_loop current n [] p)
unfolding read_loop
read_last n none p v e = rw (e, read_loop) v
read_last n (some c) p v e = rw (e, read_loop) (v, now [] p, read_turn-waits n p e)

read_returns :
    (n : ℕ) (current : Option ℕ) (rounds : List Round) (p : Pipe) (t : ReadTurn)
    → read_turn n p ≡ t
    → t ≢ must_wait
    → Turned n p t
    → ReadOk current n rounds p (read_loop current n rounds p)
unfolding read_loop
read_returns n current rounds p t e ne wait_ok = absurd (ne refl)
read_returns n current [] p t e ne (got_ok bytes writer p' d) =
    rw (e, read_loop) (p, ReaderMoment-now current [] p, d)
read_returns n current [] p t e ne (end_ok d) =
    rw (e, read_loop) (p, ReaderMoment-now current [] p, d)
read_returns n current (o ∷ rest) p t e ne (got_ok bytes writer p' d) =
    rw (e, read_loop) (p, ReaderMoment-now current (o ∷ rest) p, d)
read_returns n current (o ∷ rest) p t e ne (end_ok d) =
    rw (e, read_loop) (p, ReaderMoment-now current (o ∷ rest) p, d)

ReadTurn-cases : (t : ReadTurn) → (t ≡ must_wait) ⊎ (t ≢ must_wait)
ReadTurn-cases (got bytes writer p') = inr (λ e. cc)
ReadTurn-cases at_end = inr (λ e. cc)
ReadTurn-cases must_wait = inl refl

read_loop-ReadOk :
    (current : Option ℕ) (n : ℕ) (rounds : List Round) (p : Pipe)
    → IsPipe p
    → 0 < n
    → All Fair rounds
    → ReadOk current n rounds p (read_loop current n rounds p)
read_loop-ReadOk current n [] p v nz fair = elim (ReadTurn-cases (read_turn n p)) [
  | inl e ↦ read_last n current p v e
  | inr ne ↦ read_returns n current [] p (read_turn n p) refl ne (read_turn-Turned n p v nz)
]
read_loop-ReadOk current n (o ∷ rest) p v nz fair = elim (ReadTurn-cases (read_turn n p)) [
  | inl e ↦
      read_round n current o rest p v fair.0 (λ q w. read_loop-ReadOk current n rest q w nz fair.1)
        e
  | inr ne ↦ read_returns n current (o ∷ rest) p (read_turn n p) refl ne (read_turn-Turned n p v nz)
]

-- Whatever the other processes do to a pipe that keeps its ring buffer in order, `kpipe_read` returns
-- bytes that it found, at the call or at a later moment when it did not have to wait, at the front of
-- the pipe, in order and as many as were there or as were asked for, and none only if the pipe was
-- then empty and had no writer. It still waits only where there is nothing to read and a writer.
pub kpipe_read-ReadOk :
    (current : Option ℕ) (n : ℕ) (rounds : List Round) (p : Pipe)
    → IsPipe p
    → All Fair rounds
    → ReadOk current n rounds p (kpipe_read current n rounds p)
unfolding kpipe_read
kpipe_read-ReadOk current zero rounds p v fair = v
kpipe_read-ReadOk current (suc n) rounds p v fair =
    let e : (suc n == 0) ≡ false = ground arith in
    rw e (read_loop-ReadOk current (suc n) rounds p v (omega arith) fair)
