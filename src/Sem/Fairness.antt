-- ===== src/Sem/Fairness.antt =====
-- The counter and the queue of a semaphore (Kernel/ipc/semaphore.c) over any history of calls.
use tp2_kernel.Base.{
  ℕ, ◌+◌, ◌-◌, ◌<◌, ◌≤◌, ◌≡◌, refl, sym, ap, ◌∙◌, true, false, none, some, List, [], ◌∷◌, ◌++◌,
  arith, ltb, length, append-nil, append_assoc, length-append, Bool-cases, inl, inr, ◌⊎◌,
}
use tp2_kernel.Sem.{
  Sem, refused, passed, asleep, ksem_wait, ksem_post, post_locked, raise, wait_queue_pop,
  wait_queue_push, uint32_max,
}

-- A process waits only while there is no unit to take.
abbrev pub Balanced : Sem → Type 0
Balanced m = (m.count ≡ 0) ⊎ (m.waiters ≡ [])

-- A call on the semaphore: a wait by a process that gets its waiter, or a post.
pub data Call : Type 0 where
  wait_by : ℕ → Call
  post : Call

-- A semaphore with the processes that it has let through so far, in order.
pub record Ledger : Type 0 where
  pub sem : Sem
  pub through : List ℕ

-- Every process that waits can be woken, and no other process comes between the sections of a post.
pub step : Call → Ledger → Ledger
step (wait_by c) l =
    let (w, m) = ksem_wait (some c) true l.sem in
    elim w [
      | refused ↦ record { sem = m; through = l.through }
      | passed ↦ record { sem = m; through = l.through ++ c ∷ [] }
      | asleep ↦ record { sem = m; through = l.through }
    ]
step post l =
    let (woken, m) = ksem_post (λ s. true) (λ m. m) l.sem in
    elim woken [
      | none ↦ record { sem = m; through = l.through }
      | some s ↦ record { sem = m; through = l.through ++ s ∷ [] }
    ]

pub run : List Call → Ledger → Ledger
run [] l = l
run (c ∷ calls) l = run calls (step c l)

-- The processes that waited, in order.
pub waits : List Call → List ℕ
waits [] = []
waits (wait_by c ∷ calls) = c ∷ waits calls
waits (post ∷ calls) = waits calls

pub posts : List Call → ℕ
posts [] = 0
posts (wait_by c ∷ calls) = posts calls
posts (post ∷ calls) = posts calls + 1

waits_cons : (c : Call) (calls : List Call) → waits (c ∷ calls) ≡ waits (c ∷ []) ++ waits calls
unfolding waits
waits_cons (wait_by c) calls = refl
waits_cons post calls = refl

posts_cons : (c : Call) (calls : List Call) → posts (c ∷ calls) ≡ posts (c ∷ []) + posts calls
unfolding posts
posts_cons (wait_by c) calls = omega arith
posts_cons post calls = omega arith

-- What one call does.
pub record Served (c : Call) (l : Ledger) : Type 0 where
  pub balanced : Balanced (step c l).sem
  pub order :
      (step c l).through ++ (step c l).sem.waiters ≡ (l.through ++ l.sem.waiters) ++ waits (c ∷ [])
  pub units :
      (step c l).sem.count + length (step c l).through
      ≡ l.sem.count + length l.through + posts (c ∷ [])
  pub grows : (step c l).sem.count ≤ l.sem.count + 1

ksem_wait_now :
    (c : ℕ) (m : Sem)
    → ltb 0 m.count ≡ true
    → ksem_wait (some c) true m ≡ (passed, record m { count = m.count - 1 })
unfolding ksem_wait
ksem_wait_now c m e = rw e refl

ksem_wait_asleep :
    (c : ℕ) (m : Sem)
    → ltb 0 m.count ≡ false
    → ksem_wait (some c) true m ≡ (asleep, record m { waiters = wait_queue_push m.waiters c })
unfolding ksem_wait
ksem_wait_asleep c m e = rw e refl

step_wait_now :
    (c : ℕ) (l : Ledger)
    → ltb 0 l.sem.count ≡ true
    → step (wait_by c) l
      ≡ record { sem = record l.sem { count = l.sem.count - 1 }; through = l.through ++ c ∷ [] }
unfolding step
step_wait_now c l e = rw (ksem_wait_now c l.sem e, step) (rw (ksem_wait_now c l.sem e) refl)

step_wait_asleep :
    (c : ℕ) (l : Ledger)
    → ltb 0 l.sem.count ≡ false
    → step (wait_by c) l
      ≡ record { sem = record l.sem { waiters = l.sem.waiters ++ c ∷ [] }; through = l.through }
unfolding step
step_wait_asleep c l e =
    rw (ksem_wait_asleep c l.sem e, step) (rw (ksem_wait_asleep c l.sem e) refl)

step_post_raise :
    (l : Ledger)
    → l.sem.waiters ≡ []
    → step post l ≡ record { sem = raise l.sem; through = l.through }
unfolding step ksem_post post_locked
step_post_raise l e = rw e refl

step_post_wake :
    (s : ℕ) (q : List ℕ) (l : Ledger)
    → l.sem.waiters ≡ s ∷ q
    → step post l ≡ record { sem = record l.sem { waiters = q }; through = l.through ++ s ∷ [] }
unfolding step ksem_post post_locked wait_queue_pop
step_post_wake s q l e = rw e refl

step-Served : (c : Call) (l : Ledger) → Balanced l.sem → l.sem.count < uint32_max → Served c l
unfolding raise waits posts
step-Served (wait_by c) l b h = elim (Bool-cases (ltb 0 l.sem.count)) [
  | inl e ↦
      let alone : l.sem.waiters ≡ [] = elim b [ inl z ↦ absurd (ground arith) | inr q ↦ q ] in
      let len = length-append l.through (c ∷ []) in
      let s = step_wait_now c l e in
      record {
        balanced = rw s (inr alone);
        order = rw s (rw (alone, append-nil, append-nil) refl);
        units = rw s (ground arith);
        grows = rw s (ground arith);
      }
  | inr e ↦
      let s = step_wait_asleep c l e in
      record {
        balanced = rw s (inl (ground arith));
        order = rw s (sym (append_assoc l.through l.sem.waiters (c ∷ [])));
        units = rw s (ground arith);
        grows = rw s (ground arith);
      }
]
step-Served post l b h = by_queue l.sem.waiters refl
  where
    by_queue : (q : List ℕ) → l.sem.waiters ≡ q → Served post l
    by_queue [] e =
        let s = step_post_raise l e in
        record {
          balanced = rw s (inr e);
          order = rw s (sym (append-nil _));
          units = rw s (ground arith);
          grows = rw s (ground arith);
        }
    by_queue (t ∷ q) e =
        let s = step_post_wake t q l e in
        let len = length-append l.through (t ∷ []) in
        record {
          balanced = rw s (elim b [ inl z ↦ inl z | inr z ↦ absurd (ground arith) ]);
          order = rw s (rw (e, append-nil) (append_assoc l.through (t ∷ []) q));
          units = rw s (ground arith);
          grows = rw s (ground arith);
        }

-- What a history does.
pub record Fair (calls : List Call) (l : Ledger) : Type 0 where
  pub balanced : Balanced (run calls l).sem
  pub order :
      (run calls l).through ++ (run calls l).sem.waiters
      ≡ (l.through ++ l.sem.waiters) ++ waits calls
  pub units :
      (run calls l).sem.count + length (run calls l).through
      ≡ l.sem.count + length l.through + posts calls

-- Over any history of waits and posts whose waiters can all be woken, and in which the counter stays
-- below its maximum, the processes are let through in the order in which they called `ksem_wait`,
-- those that still wait being the last; the counter and the number let through add up to the units
-- there were and the posts; and no process waits while a unit is left.
pub run-Fair :
    (calls : List Call) (l : Ledger)
    → Balanced l.sem
    → l.sem.count + length calls < uint32_max
    → Fair calls l
unfolding run waits posts
run-Fair [] l b h = record { balanced = b; order = sym (append-nil _); units = ground arith }
run-Fair (c ∷ calls) l b h =
    let s = step-Served c l b (omega arith) in
    let le = s.grows in
    let w = waits_cons c calls in
    let p = posts_cons c calls in
    let rest = run-Fair calls (step c l) s.balanced (omega arith) in
    record {
      balanced = rest.balanced;
      order =
          rest.order
          ∙ ap (λ f. f ++ waits calls) s.order
          ∙ append_assoc (l.through ++ l.sem.waiters) (waits (c ∷ [])) (waits calls)
          ∙ ap (λ f. (l.through ++ l.sem.waiters) ++ f) (sym w);
      units = omega (arith, rest.units, s.units);
    }
