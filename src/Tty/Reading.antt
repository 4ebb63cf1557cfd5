-- ===== src/Tty/Reading.antt =====
-- Whole calls of `tty_read` (Kernel/fs/tty.c).
use tp2_kernel.Base.{
  ℕ, ◌<◌, ◌≡◌, refl, sym, subst, Bool, true, false, not, ◌&&◌, ◌||◌, Option, none, some, List, [],
  ◌∷◌, ◌++◌, arith, ltb, ◌==◌, if◌then◌else◌, length, Bool-cases, inl, inr, All, ◌⊎◌,
}
use tp2_kernel.Tty.{
  Tty, typed, input_turn, InputTurn, got, must_wait, Pause, InputResult, failed, done, blocked,
  queue_up, tty_read_loop, tty_read, enqueue_waiter,
}
use tp2_kernel.Tty.Input.{IsTty, take_bytes-TakenBytes}

-- The section that returned the bytes found the terminal `q` and took as many off its front as were
-- there or as were asked for; without a byte there, it took the mark of the end of the file.
pub record FromFront (n : ℕ) (bytes : List ℕ) (q t' : Tty) : Type 0 where
  pub before : IsTty q
  pub after : IsTty t'
  pub flow : typed q ≡ bytes ++ typed t'
  pub amount : length bytes ≡ (if ltb q.size n then q.size else n)
  pub mark : (0 < q.size) ⊎ ((q.eof ≡ true) × (t'.eof ≡ false))

-- What the first section of a round guarantees.
pub TurnOk : ℕ → Tty → InputTurn → Type 0
TurnOk n t (got bytes t') = FromFront n bytes t t'
TurnOk n t must_wait = t.size ≡ 0

at_mark :
    (n : ℕ) (t : Tty)
    → ltb 0 t.size ≡ false
    → t.eof ≡ true
    → input_turn n t ≡ got [] (record t { eof = false })
unfolding input_turn
at_mark n t drained e = rw drained (rw e refl)

input_turn-TurnOk : (n : ℕ) (t : Tty) → IsTty t → TurnOk n t (input_turn n t)
unfolding TurnOk input_turn
input_turn-TurnOk n t v = elim (Bool-cases (ltb 0 t.size)) [
  | inl some_there ↦
      let k = (if ltb t.size n then t.size else n) in
      let o = take_bytes-TakenBytes k t v (ground arith) in
      rw some_there (record {
        before = v;
        after = o.valid;
        flow = o.flow;
        amount = o.amount;
        mark = inl (ground arith);
      })
  | inr drained ↦ elim (Bool-cases t.eof) [
    | inl e ↦
        let same : input_turn n t ≡ got [] (record t { eof = false }) = at_mark n t drained e in
        rw same (record {
          before = v;
          after = record { fits = v.fits; head_in = v.head_in; tail_eq = v.tail_eq };
          flow = refl;
          amount = ground arith;
          mark = inr (e, refl);
        })
    | inr e ↦ rw (drained, e) (ground arith)
  ]
]

-- The other processes keep the buffer in order.
abbrev pub Tame : Pause → Type 0
Tame o = ((t : Tty) → IsTty t → IsTty (o.meanwhile t)) × ((t : Tty) → IsTty t → IsTty (o.asleep t))

queue_up-IsTty : (c : ℕ) (o : Pause) (t : Tty) → Tame o → IsTty t → IsTty (queue_up c o t)
unfolding queue_up enqueue_waiter
queue_up-IsTty c o t tame v =
    let w = tame.0 t v in
    let q =
      tame.1 (enqueue_waiter c (o.meanwhile t))
        (record { fits = w.fits; head_in = w.head_in; tail_eq = w.tail_eq }) in
    elim (Bool-cases (ltb 0 (o.meanwhile t).size || (o.meanwhile t).eof)) [
      | inl y ↦ rw y w
      | inr ne ↦ rw ne q
    ]

-- Nothing typed, and no mark of the end.
abbrev pub idle : Tty → Bool
idle t = not (ltb 0 t.size) && not t.eof

-- The terminals that a call finds when its first section runs: from a terminal where it has to wait, the
-- one that the others left while its waiter was allocated, if there is something to read then, and what
-- they left when it is woken, if it slept in the queue.
pub data Moment (c : ℕ) : List Pause → Tty → Tty → Type 0 where
  now : (rounds : List Pause) (t : Tty) → Moment c rounds t t
  tried_again :
      (o : Pause) (rest : List Pause) (t q : Tty)
      → idle t ≡ true
      → o.allocated ≡ true
      → idle (o.meanwhile t) ≡ false
      → Moment c rest (o.meanwhile t) q
      → Moment c (o ∷ rest) t q
  slept :
      (o : Pause) (rest : List Pause) (t q : Tty)
      → idle t ≡ true
      → o.allocated ≡ true
      → idle (o.meanwhile t) ≡ true
      → Moment c rest (o.asleep (enqueue_waiter c (o.meanwhile t))) q
      → Moment c (o ∷ rest) t q

-- Without a current process there is one moment only.
abbrev pub InputMoment : Option ℕ → List Pause → Tty → Tty → Type 0
InputMoment none rounds t q = q ≡ t
InputMoment (some c) rounds t q = Moment c rounds t q

InputMoment-now :
    (current : Option ℕ) (rounds : List Pause) (t : Tty) → InputMoment current rounds t t
InputMoment-now none rounds t = refl
InputMoment-now (some c) rounds t = now rounds t

-- What a call of `tty_read` on the terminal `t` guarantees of its result: bytes come from a moment of the
-- call, and it still waits only at a moment without bytes and without a mark.
abbrev pub InputOk : Option ℕ → ℕ → List Pause → Tty → InputResult → Type 0
InputOk current n rounds t (failed t') = IsTty t'
InputOk current n rounds t (done bytes t') =
    (q : Tty) × InputMoment current rounds t q × FromFront n bytes q t'
InputOk current n rounds t (blocked t') =
    IsTty t' × InputMoment current rounds t t' × (idle t' ≡ true)

-- The moments of the rest of a call are moments of the call.
later :
    (current : Option ℕ) (n : ℕ) (rest rounds : List Pause) (t t₁ : Tty) (r : InputResult)
    → ((q : Tty) → InputMoment current rest t₁ q → InputMoment current rounds t q)
    → InputOk current n rest t₁ r
    → InputOk current n rounds t r
later current n rest rounds t t₁ (failed t') go ok = ok
later current n rest rounds t t₁ (done bytes t') go (q, m, f) = (q, go q m, f)
later current n rest rounds t t₁ (blocked t') go (v, m, w) = (v, go t' m, w)

-- After the second section the call is at a moment of the rest.
queue_up-Moment :
    (c : ℕ) (o : Pause) (rest : List Pause) (t q : Tty)
    → idle t ≡ true
    → o.allocated ≡ true
    → Moment c rest (queue_up c o t) q
    → Moment c (o ∷ rest) t q
unfolding queue_up
queue_up-Moment c o rest t q w a m =
    elim (Bool-cases (ltb 0 (o.meanwhile t).size || (o.meanwhile t).eof)) [
      | inl y ↦
          tried_again o rest t q w a (ground (arith, y))
            (subst (λ u. Moment c rest u q) (ready c o t y) m)
      | inr ne ↦
          slept o rest t q w a (ground (arith, ne))
            (subst (λ u. Moment c rest u q) (asleep c o t ne) m)
    ]
  where
    ready :
        (c : ℕ) (o : Pause) (t : Tty)
        → (ltb 0 (o.meanwhile t).size || (o.meanwhile t).eof) ≡ true
        → queue_up c o t ≡ o.meanwhile t
    ready c o t y = rw y refl

    asleep :
        (c : ℕ) (o : Pause) (t : Tty)
        → (ltb 0 (o.meanwhile t).size || (o.meanwhile t).eof) ≡ false
        → queue_up c o t ≡ o.asleep (enqueue_waiter c (o.meanwhile t))
    asleep c o t ne = rw ne refl

-- A section that has to wait finds the terminal idle.
input_turn-idle : (n : ℕ) (t : Tty) → input_turn n t ≡ must_wait → idle t ≡ true
unfolding input_turn
input_turn-idle n t e = ground arith

tty_read_loop-InputOk :
    (current : Option ℕ) (n : ℕ) (rounds : List Pause) (t : Tty)
    → IsTty t
    → All Tame rounds
    → InputOk current n rounds t (tty_read_loop current n rounds t)
unfolding tty_read_loop TurnOk
tty_read_loop-InputOk current n [] t v tame =
    by_turn (input_turn n t) refl (input_turn-TurnOk n t v) current
  where
    by_turn :
        (r : InputTurn)
        → input_turn n t ≡ r
        → TurnOk n t r
        → (c : Option ℕ)
        → InputOk c n [] t (elim r [
          | got bytes t' ↦ done bytes t'
          | must_wait ↦ elim c [ none ↦ failed t | some c ↦ blocked t ]
        ])
    by_turn (got bytes t') e ok c = (t, InputMoment-now c [] t, ok)
    by_turn must_wait e ok none = v
    by_turn must_wait e ok (some c) = (v, now [] t, input_turn-idle n t e)
tty_read_loop-InputOk current n (o ∷ rest) t v tame =
    by_turn (input_turn n t) refl (input_turn-TurnOk n t v) current refl o.allocated refl
      (tty_read_loop-InputOk current n rest)
  where
    by_turn :
        (r : InputTurn)
        → input_turn n t ≡ r
        → TurnOk n t r
        → (c : Option ℕ) → current ≡ c
        → (b : Bool) → o.allocated ≡ b
        → ((t' : Tty)
            → IsTty t'
            → All Tame rest
            → InputOk current n rest t' (tty_read_loop current n rest t'))
        → InputOk current n (o ∷ rest) t (elim r [
          | got bytes t' ↦ done bytes t'
          | must_wait ↦ elim c [
            | none ↦ failed t
            | some c ↦ elim b [
              | false ↦ failed (o.meanwhile t)
              | true ↦ tty_read_loop current n rest (queue_up c o t)
            ]
          ]
        ])
    by_turn (got bytes t') e ok c same b a go = (t, InputMoment-now current (o ∷ rest) t, ok)
    by_turn must_wait e ok none same b a go = v
    by_turn must_wait e ok (some c) same false a go = tame.0.0 t v
    by_turn must_wait e ok (some c) same true a go =
        let t₁ = queue_up c o t in
        later current n rest (o ∷ rest) t t₁ (tty_read_loop current n rest t₁)
          (λ q.
            subst (λ u. InputMoment u rest t₁ q → InputMoment u (o ∷ rest) t q) (sym same)
              (queue_up-Moment c o rest t q (input_turn-idle n t e) a))
          (go t₁ (queue_up-IsTty c o t tame.0 v) tame.1)

-- Whatever the other processes do to a terminal whose buffer they keep in order, a `tty_read` that
-- returns bytes took them, at the call or at a later moment when it did not have to wait, off the front
-- of what was typed, in order and as many as were there or were asked for, and returns none only for a
-- mark of the end of the file, which it takes away. It still waits only where nothing is typed and no
-- mark is set. A call that fails leaves the buffer in order.
pub tty_read-InputOk :
    (current : Option ℕ) (n : ℕ) (rounds : List Pause) (t : Tty)
    → IsTty t
    → 0 < n
    → All Tame rounds
    → InputOk current n rounds t (tty_read current n rounds t)
unfolding tty_read
tty_read-InputOk current n rounds t v nz tame =
    let e : (n == 0) ≡ false = ground arith in
    rw e (tty_read_loop-InputOk current n rounds t v tame)
