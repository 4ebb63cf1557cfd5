-- ===== src/Pipe/Progress.antt =====
-- When `kpipe_read` and `kpipe_write` (Kernel/ipc/pipe.c) return.
use tp2_kernel.Base.{
  ℕ, ◌<◌, ◌≡◌, ◌≢◌, ◌⊎◌, inl, inr, refl, Bool, true, false, Option, none, some, List, [], ◌∷◌,
  arith, ltb, ◌==◌, length, Bool-cases,
}
use tp2_kernel.Pipe.{
  Pipe, pipe_cap, got, at_end, must_wait, read_turn, read_wait, put, no_readers, full, write_turn,
  Round, Result, failed, done, blocked, read_loop, write_loop, kpipe_read, kpipe_write, queued_up,
  again, ended, ReadTurn, WaitTurn, WriteTurn, write_wait,
}

-- The call has returned a number of bytes.
abbrev pub is_done {ℓ} : {A : Type ℓ} → Result A → Bool
is_done (failed p) = false
is_done (done a s p) = true
is_done (blocked p) = false

-- A reader need not wait: there are bytes, or there is no writer left.
abbrev pub Readable : Pipe → Type 0
Readable p = (0 < p.size) ⊎ (p.writers ≡ 0)

-- The first section returns.
abbrev turn_returns : ReadTurn → Bool
turn_returns (got bytes s p) = true
turn_returns at_end = true
turn_returns must_wait = false

read_turn-returns : (n : ℕ) (p : Pipe) → Readable p → turn_returns (read_turn n p) ≡ true
unfolding read_turn
read_turn-returns n p r = elim (Bool-cases (ltb 0 p.size)) [
  | inl e ↦ rw e refl
  | inr e ↦ elim r [
    | inl h ↦ absurd (ground arith)
    | inr z ↦ let w : (p.writers == 0) ≡ true = ground arith in rw (e, w) refl
  ]
]

loop_returns :
    (current : Option ℕ) (n : ℕ) (rounds : List Round) (p : Pipe) (t : ReadTurn)
    → read_turn n p ≡ t
    → turn_returns t ≡ true
    → is_done (read_loop current n rounds p) ≡ true
unfolding read_loop
loop_returns current n [] p (got bytes s q) e f = rw (e, read_loop) refl
loop_returns current n [] p at_end e f = rw (e, read_loop) refl
loop_returns current n (o ∷ rest) p (got bytes s q) e f = rw (e, read_loop) refl
loop_returns current n (o ∷ rest) p at_end e f = rw (e, read_loop) refl
loop_returns current n rounds p must_wait e f = absurd (ground (arith, f))

loop_returns-Readable :
    (current : Option ℕ) (n : ℕ) (rounds : List Round) (p : Pipe)
    → Readable p
    → is_done (read_loop current n rounds p) ≡ true
loop_returns-Readable current n rounds p r =
    loop_returns current n rounds p (read_turn n p) refl (read_turn-returns n p r)

read_wait-again : (c : ℕ) (p : Pipe) → read_wait c p ≡ again → Readable p
unfolding read_wait
read_wait-again c p e = elim (Bool-cases (ltb 0 p.size)) [
  | inl y ↦ inl (ground arith)
  | inr n ↦ absurd (ground arith)
]

-- A round that waits, and after which there is something to return.
round_returns :
    (c n : ℕ) (o : Round) (rest : List Round) (p : Pipe)
    → o.allocated ≡ true
    → ((q : Pipe) → Readable (o.asleep q))
    → read_turn n p ≡ must_wait
    → is_done (read_loop (some c) n (o ∷ rest) p) ≡ true
unfolding read_loop
round_returns c n o rest p al wakes e =
    rw (e, read_loop) (rw al (by_wait (read_wait c (o.meanwhile p)) refl))
  where
    by_wait :
        (t : WaitTurn)
        → read_wait c (o.meanwhile p) ≡ t
        → is_done (elim t [
          | again ↦ read_loop (some c) n rest (o.meanwhile p)
          | ended ↦ done [] none (o.meanwhile p)
          | queued_up p' ↦ read_loop (some c) n rest (o.asleep p')
        ])
          ≡ true
    by_wait again f =
        loop_returns-Readable (some c) n rest (o.meanwhile p) (read_wait-again c (o.meanwhile p) f)
    by_wait ended f = refl
    by_wait (queued_up q) f = loop_returns-Readable (some c) n rest (o.asleep q) (wakes q)

-- `kpipe_read` of at least one byte by a process returns without waiting more than once, if its
-- waiter is allocated and it runs again only when there are bytes or no writer is left, whatever the
-- other processes did before.
pub kpipe_read_progress :
    (c n : ℕ) (o : Round) (rest : List Round) (p : Pipe)
    → 0 < n
    → o.allocated ≡ true
    → ((q : Pipe) → Readable (o.asleep q))
    → is_done (kpipe_read (some c) n (o ∷ rest) p) ≡ true
unfolding kpipe_read
kpipe_read_progress c n o rest p nz al wakes =
    let e : (n == 0) ≡ false = ground arith in rw e (by_turn (read_turn n p) refl)
  where
    by_turn :
        (t : ReadTurn) → read_turn n p ≡ t → is_done (read_loop (some c) n (o ∷ rest) p) ≡ true
    by_turn (got bytes s q) f = loop_returns (some c) n (o ∷ rest) p (got bytes s q) f refl
    by_turn at_end f = loop_returns (some c) n (o ∷ rest) p at_end f refl
    by_turn must_wait f = round_returns c n o rest p al wakes f

-- The call is over, with a number of bytes or with -1.
abbrev pub is_over {ℓ} : {A : Type ℓ} → Result A → Bool
is_over (failed p) = true
is_over (done a s p) = true
is_over (blocked p) = false

-- A writer need not wait: there is room, or there is no reader left.
abbrev pub Answers : Pipe → Type 0
Answers p = (p.size < pipe_cap) ⊎ (p.readers ≡ 0)

write_turn-full : (src : List ℕ) (p : Pipe) → Answers p → write_turn src p ≢ full
unfolding write_turn
write_turn-full src p (inl h) e = elim (Bool-cases (p.readers == 0)) [
  | inl y ↦ absurd (ground arith)
  | inr n ↦ absurd (ground arith)
]
write_turn-full src p (inr z) e = absurd (ground arith)

write_loop_over :
    (current : Option ℕ) (src : List ℕ) (rounds : List Round) (p : Pipe) (t : WriteTurn)
    → write_turn src p ≡ t
    → t ≢ full
    → is_over (write_loop current src rounds p) ≡ true
unfolding write_loop
write_loop_over current src [] p no_readers e f = rw (e, write_loop) refl
write_loop_over current src [] p (put n s q) e f = rw (e, write_loop) refl
write_loop_over current src (o ∷ rest) p no_readers e f = rw (e, write_loop) refl
write_loop_over current src (o ∷ rest) p (put n s q) e f = rw (e, write_loop) refl
write_loop_over current src rounds p full e f = absurd (f refl)

write_loop-Answers :
    (current : Option ℕ) (src : List ℕ) (rounds : List Round) (p : Pipe)
    → Answers p
    → is_over (write_loop current src rounds p) ≡ true
write_loop-Answers current src rounds p r =
    write_loop_over current src rounds p (write_turn src p) refl (write_turn-full src p r)

write_wait-again : (c : ℕ) (p : Pipe) → write_wait c p ≡ again → Answers p
unfolding write_wait
write_wait-again c p e = elim (Bool-cases (ltb p.size pipe_cap)) [
  | inl y ↦ inl (ground arith)
  | inr n ↦ absurd (ground arith)
]

write_round_over :
    (c : ℕ) (src : List ℕ) (o : Round) (rest : List Round) (p : Pipe)
    → o.allocated ≡ true
    → ((q : Pipe) → Answers (o.asleep q))
    → write_turn src p ≡ full
    → is_over (write_loop (some c) src (o ∷ rest) p) ≡ true
unfolding write_loop
write_round_over c src o rest p al wakes e =
    rw (e, write_loop) (rw al (by_wait (write_wait c (o.meanwhile p)) refl))
  where
    by_wait :
        (t : WaitTurn)
        → write_wait c (o.meanwhile p) ≡ t
        → is_over (elim t [
          | again ↦ write_loop (some c) src rest (o.meanwhile p)
          | ended ↦ failed (o.meanwhile p)
          | queued_up p' ↦ write_loop (some c) src rest (o.asleep p')
        ])
          ≡ true
    by_wait again f =
        write_loop-Answers (some c) src rest (o.meanwhile p) (write_wait-again c (o.meanwhile p) f)
    by_wait ended f = refl
    by_wait (queued_up q) f = write_loop-Answers (some c) src rest (o.asleep q) (wakes q)

-- `kpipe_write` of at least one byte by a process returns, with a number or with -1, without waiting
-- more than once, if its waiter is allocated and it runs again only when there is room or no reader
-- is left, whatever the other processes did before.
pub kpipe_write_progress :
    (c : ℕ) (src : List ℕ) (o : Round) (rest : List Round) (p : Pipe)
    → 0 < length src
    → o.allocated ≡ true
    → ((q : Pipe) → Answers (o.asleep q))
    → is_over (kpipe_write (some c) src (o ∷ rest) p) ≡ true
unfolding kpipe_write
kpipe_write_progress c src o rest p nz al wakes =
    let e : (length src == 0) ≡ false = ground arith in rw e (by_turn (write_turn src p) refl)
  where
    by_turn :
        (t : WriteTurn)
        → write_turn src p ≡ t
        → is_over (write_loop (some c) src (o ∷ rest) p) ≡ true
    by_turn no_readers f = write_loop_over (some c) src (o ∷ rest) p no_readers f (λ x. cc)
    by_turn (put n s q) f = write_loop_over (some c) src (o ∷ rest) p (put n s q) f (λ x. cc)
    by_turn full f = write_round_over c src o rest p al wakes f
