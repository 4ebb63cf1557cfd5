-- ===== src/Pipe/Flow.antt =====
-- The ring buffer of Kernel/ipc/pipe.c as a queue of bytes, and its copy loops.
use tp2_kernel.Base.{
  ℕ, zero, suc, ◌+◌, ◌-◌, ◌%◌, ◌≤◌, ◌<◌, ◌≡◌, refl, ap, sym, ◌∙◌, List, [], ◌∷◌, ◌++◌, update,
  length, arith, append-nil, append_assoc,
}
use tp2_kernel.Ring.{span, span-store, next-mod}
use tp2_kernel.Pipe.{Pipe, pipe_cap, contents, copy_out, copy_in, lesser, prefix}

-- The indices of the ring buffer fit together.
pub record IsPipe (p : Pipe) : Type 0 where
  pub fits : p.size ≤ pipe_cap
  pub r_in : p.r < pipe_cap
  pub w_eq : p.w ≡ (p.r + p.size) % pipe_cap

-- What the copy out of the buffer leaves.
pub record CopiedOut (n : ℕ) (p : Pipe) : Type 0 where
  pub valid : IsPipe (copy_out n p).1
  pub flow : contents p ≡ (copy_out n p).0 ++ contents (copy_out n p).1
  pub amount : length (copy_out n p).0 ≡ n

pub copy_out-CopiedOut : (n : ℕ) (p : Pipe) → IsPipe p → n ≤ p.size → CopiedOut n p
unfolding copy_out
copy_out-CopiedOut zero p v h = record { valid = v; flow = refl; amount = refl }
copy_out-CopiedOut (suc n) p v h =
    let q : Pipe = record p { r = (p.r + 1) % pipe_cap; size = p.size - 1 } in
    let pre : p.size ≡ suc q.size = omega arith in
    let w : IsPipe q = record {
      fits = omega arith;
      r_in = omega arith;
      w_eq = v.w_eq ∙ ap (λ k. (p.r + k) % pipe_cap) pre ∙ sym (next-mod pipe_cap p.r q.size);
    } in
    let rest = copy_out-CopiedOut n q w (omega arith) in
    record {
      valid = rest.valid;
      flow = ap (span p.buf pipe_cap p.r) pre ∙ ap (◌∷◌ (p.buf p.r)) rest.flow;
      amount = ap suc rest.amount;
    }

-- What the copy into the buffer leaves.
pub record CopiedIn (src : List ℕ) (p : Pipe) : Type 0 where
  pub valid : IsPipe (copy_in src p)
  pub flow : contents (copy_in src p) ≡ contents p ++ src
  pub amount : (copy_in src p).size ≡ p.size + length src

pub copy_in-CopiedIn :
    (src : List ℕ) (p : Pipe) → IsPipe p → p.size + length src ≤ pipe_cap → CopiedIn src p
unfolding copy_in
copy_in-CopiedIn [] p v h = record { valid = v; flow = sym (append-nil _); amount = omega arith }
copy_in-CopiedIn (c ∷ src) p v h =
    let q : Pipe = record p {
      buf = update p.buf p.w c;
      w = (p.w + 1) % pipe_cap;
      size = p.size + 1;
    } in
    let w : IsPipe q = record { fits = omega arith; r_in = v.r_in; w_eq = omega (arith, v.w_eq) } in
    let stored : contents q ≡ contents p ++ c ∷ [] =
      ap (span q.buf pipe_cap p.r) (let e : p.size + 1 ≡ suc p.size = omega arith in e)
      ∙ span-store p.buf pipe_cap c p.size p.r p.w v.r_in (omega arith) v.w_eq in
    let rest = copy_in-CopiedIn src q w (omega arith) in
    record {
      valid = rest.valid;
      flow = rest.flow ∙ ap (λ l. l ++ src) stored ∙ append_assoc (contents p) (c ∷ []) src;
      amount = omega (arith, rest.amount);
    }

pub length-prefix : (n : ℕ) (src : List ℕ) → length (prefix n src) ≡ lesser (length src) n
unfolding prefix
length-prefix zero src = ground arith
length-prefix (suc n) [] = ground arith
length-prefix (suc n) (c ∷ src) = ground (arith, length-prefix n src)
