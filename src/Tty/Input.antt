-- ===== src/Tty/Input.antt =====
-- The input buffer of Kernel/fs/tty.c: what a key stores and what a reader takes.
use tp2_kernel.Base.{
  ℕ, zero, suc, ◌+◌, ◌-◌, ◌%◌, ◌<◌, ◌≤◌, ◌≡◌, refl, sym, ap, ◌∙◌, true, Option, none, List, [], ◌∷◌,
  ◌++◌, arith, ◌==◌, if◌then◌else◌, length, update, Bool-cases, inl, inr,
}
use tp2_kernel.Ring.{span, span-store, next-mod}
use tp2_kernel.Tty.{
  tty_handle_input, tty_set_foreground, Tty, tty_cap, typed, take_bytes, store_char, tty_push_char,
  dequeue_waiter,
}

-- The indices of the buffer fit together.
pub record IsTty (t : Tty) : Type 0 where
  pub fits : t.size ≤ tty_cap
  pub head_in : t.head < tty_cap
  pub tail_eq : t.tail ≡ (t.head + t.size) % tty_cap

-- What the copy out of the buffer leaves.
pub record TakenBytes (n : ℕ) (t : Tty) : Type 0 where
  pub valid : IsTty (take_bytes n t).1
  pub flow : typed t ≡ (take_bytes n t).0 ++ typed (take_bytes n t).1
  pub amount : length (take_bytes n t).0 ≡ n

pub take_bytes-TakenBytes : (n : ℕ) (t : Tty) → IsTty t → n ≤ t.size → TakenBytes n t
unfolding take_bytes
take_bytes-TakenBytes zero t v h = record { valid = v; flow = refl; amount = refl }
take_bytes-TakenBytes (suc n) t v h =
    let next : Tty = record t { head = (t.head + 1) % tty_cap; size = t.size - 1 } in
    let more : t.size ≡ suc next.size = omega arith in
    let ok : IsTty next = record {
      fits = omega arith;
      head_in = omega arith;
      tail_eq =
          v.tail_eq
          ∙ ap (λ k. (t.head + k) % tty_cap) more
          ∙ sym (next-mod tty_cap t.head next.size);
    } in
    let ih = take_bytes-TakenBytes n next ok (omega arith) in
    record {
      valid = ih.valid;
      flow = ap (span t.buffer tty_cap t.head) more ∙ ap (◌∷◌ (t.buffer t.head)) ih.flow;
      amount = ap suc ih.amount;
    }

-- All but the first.
abbrev pub rest_of : List ℕ → List ℕ
rest_of [] = []
rest_of (c ∷ cs) = cs

-- A byte behind what a buffer with room holds.
store_room :
    (c : ℕ) (t : Tty)
    → IsTty t
    → t.size < tty_cap
    → (typed (record t {
      buffer = update t.buffer t.tail c;
      tail = (t.tail + 1) % tty_cap;
      size = t.size + 1;
    })
        ≡ typed t ++ c ∷ [])
      × IsTty (record t {
        buffer = update t.buffer t.tail c;
        tail = (t.tail + 1) % tty_cap;
        size = t.size + 1;
      })
store_room c t v h =
    let e : t.size + 1 ≡ suc t.size = omega arith in
    (
      ap (span (update t.buffer t.tail c) tty_cap t.head) e
          ∙ span-store t.buffer tty_cap c t.size t.head t.tail v.head_in h v.tail_eq,
      record { fits = omega arith; head_in = v.head_in; tail_eq = omega (arith, v.tail_eq) },
    )

-- Storing a byte keeps the buffer in order and puts the byte behind the others; only if 256 bytes
-- waited, the oldest of them is lost.
pub store_char_lem :
    (c : ℕ) (t : Tty)
    → IsTty t
    → IsTty (store_char c t)
      × (typed (store_char c t)
          ≡ (if t.size == tty_cap then rest_of (typed t) else typed t) ++ c ∷ [])
unfolding store_char
store_char_lem c t v = elim (Bool-cases (t.size == tty_cap)) [
  | inl y ↦
      let dropped : Tty = record t { head = (t.head + 1) % tty_cap; size = t.size - 1 } in
      let whole : t.size ≡ tty_cap = ground arith in
      let more : t.size ≡ suc dropped.size = omega arith in
      let ok : IsTty dropped = record {
        fits = omega arith;
        head_in = omega arith;
        tail_eq =
            v.tail_eq
            ∙ ap (λ k. (t.head + k) % tty_cap) more
            ∙ sym (next-mod tty_cap t.head dropped.size);
      } in
      let s = store_room c dropped ok (omega arith) in
      let oldest : rest_of (typed t) ≡ typed dropped =
        ap (λ k. rest_of (span t.buffer tty_cap t.head k)) more in
      rw y (s.1, s.0 ∙ ap (λ l. l ++ c ∷ []) (sym oldest))
  | inr ne ↦ let s = store_room c t v (ground arith) in rw ne (s.1, s.0)
]

store_char_eof : (c : ℕ) (t : Tty) → (store_char c t).eof ≡ t.eof
unfolding store_char
store_char_eof c t = ground arith

dequeue_waiter_ring :
    (t : Tty)
    → (typed (dequeue_waiter t).1 ≡ typed t)
      × ((dequeue_waiter t).1.eof ≡ t.eof)
      × (IsTty t → IsTty (dequeue_waiter t).1)
unfolding dequeue_waiter
dequeue_waiter_ring t = (ground arith, ground arith, λ v. ground arith)

-- What a key does.
pub record Keyed (foreground : Option ℕ) (c : ℕ) (t : Tty) : Type 0 where
  pub valid : IsTty (tty_push_char foreground c t).tty
  pub bytes : typed (tty_push_char foreground c t).tty ≡ (
      if c == 3
      then typed t
      else if c == 4
      then typed t
      else (if t.size == tty_cap then rest_of (typed t) else typed t) ++ c ∷ [])
  pub killed : (tty_push_char foreground c t).killed ≡ (if c == 3 then foreground else none)
  pub ended :
      (tty_push_char foreground c t).tty.eof
      ≡ (if c == 3 then t.eof else if c == 4 then true else t.eof)

-- A key keeps the buffer in order: Ctrl+C kills the foreground process and types nothing, the end of
-- the file sets its mark and types nothing, and any other byte is typed behind those that wait, of
-- which the oldest is lost if there were 256.
pub tty_push_char-Keyed : (foreground : Option ℕ) (c : ℕ) (t : Tty) → IsTty t → Keyed foreground c t
unfolding tty_push_char
tty_push_char-Keyed foreground c t v = elim (Bool-cases (c == 3)) [
  | inl y ↦ record { valid = rw y v; bytes = rw y refl; killed = rw y refl; ended = rw y refl }
  | inr ne ↦ elim (Bool-cases (c == 4)) [
    | inl y ↦
        let d = dequeue_waiter_ring (record t { eof = true }) in
        record {
          valid =
              rw (ne, y) (d.2 (record { fits = v.fits; head_in = v.head_in; tail_eq = v.tail_eq }));
          bytes = rw (ne, y) d.0;
          killed = rw (ne, y) refl;
          ended = rw (ne, y) d.1;
        }
    | inr n4 ↦
        let s = store_char_lem c t v in
        let d = dequeue_waiter_ring (store_char c t) in
        record {
          valid = rw (ne, n4) (d.2 s.0);
          bytes = rw (ne, n4) (d.0 ∙ s.1);
          killed = rw (ne, n4) refl;
          ended = rw (ne, n4) (d.1 ∙ store_char_eof c t);
        }
  ]
]

pub fg_pid-tty_set_foreground : (pid : Option ℕ) (t : Tty) → (tty_set_foreground pid t).fg_pid ≡ pid
unfolding tty_set_foreground
fg_pid-tty_set_foreground pid t = refl

-- Ctrl+C asks for the death of the process in front and stores nothing.
pub tty_handle_input-ctrl_c :
    (foreground : Option ℕ) (ascii : ℕ) (t : Tty)
    → ascii ≡ 3
    → ((tty_handle_input foreground ascii t).killed ≡ foreground)
      × ((tty_handle_input foreground ascii t).tty ≡ t)
unfolding tty_handle_input tty_push_char
tty_handle_input-ctrl_c foreground ascii t e = rw e (refl, refl)
