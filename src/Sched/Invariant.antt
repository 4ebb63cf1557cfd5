-- ===== src/Sched/Invariant.antt =====
-- The invariant of the ready queues of Kernel/process/sched.c, and the steps that keep it.
use tp2_kernel.Base.{
  ℕ, ◌≤◌, ◌<◌, ◌≡◌, ◌≢◌, refl, true, false, some, arith, ltb, ◌==◌, count, Bool-cases, inl, inr,
  ◌⊎◌,
}
use tp2_kernel.Sched.{Pcb, Sched, ready}
use tp2_kernel.Sched.Queues.{queued}
use tp2_kernel.Sched.Promotion.{count-le-queued}

-- A process that may wait in the queue of level `p`.
pub record Waiting (p : ℕ) (b : Pcb) : Type 0 where
  pub is_ready : b.state ≡ ready
  pub at : b.priority ≡ p
  pub framed : b.kframe ≢ 0

-- Every process in a queue is READY and has the priority of the queue, none stands in two places,
-- and the idle process stands in none.
pub record Queues (k : Sched) : Type 0 where
  pub placed : (p t : ℕ) → p < 4 → 0 < count t (k.queue p) → Waiting p (k.procs t)
  pub once : (t : ℕ) → queued t k.queue ≤ 1
  pub base : (t : ℕ) → (k.procs t).base_priority ≤ 3
  pub idle_out : (i : ℕ) → k.idle_proc ≡ some i → (k.procs i).state ≢ ready

-- Between two ticks the current process stands in no queue either.
pub record Inv (k : Sched) : Type 0 where
  pub queues : Queues k
  pub current_out : (c : ℕ) → k.current ≡ some c → (k.procs c).state ≢ ready

-- A process that is not READY stands in no queue.
pub Queues-out : (k : Sched) (c : ℕ) → Queues k → (k.procs c).state ≢ ready → queued c k.queue ≡ 0
Queues-out k c v ne = omega (
  arith,
  level 0 (omega arith),
  level 1 (omega arith),
  level 2 (omega arith),
  level 3 (omega arith),
)
  where
    level : (p : ℕ) → p < 4 → count c (k.queue p) ≡ 0
    level p h = elim (Bool-cases (count c (k.queue p) == 0)) [
      | inl e ↦ ground arith
      | inr e ↦ absurd (ne (v.placed p c h (ground arith)).is_ready)
    ]

-- Where a process stands: in no queue, or once, in the queue of its priority.
pub Queues-where :
    (k : Sched) (t : ℕ)
    → Queues k
    → (queued t k.queue ≡ 0)
      ⊎ (((k.procs t).priority < 4)
          × (count t (k.queue (k.procs t).priority) ≡ 1)
          × (queued t k.queue ≡ 1)
          × Waiting (k.procs t).priority (k.procs t))
Queues-where k t v =
    first (Bool-cases (ltb 0 (count t (k.queue 0)))) (Bool-cases (ltb 0 (count t (k.queue 1))))
      (Bool-cases (ltb 0 (count t (k.queue 2)))) (Bool-cases (ltb 0 (count t (k.queue 3))))
  where
    Here : Type 0
    Here =
        ((k.procs t).priority < 4)
        × (count t (k.queue (k.procs t).priority) ≡ 1)
        × (queued t k.queue ≡ 1)
        × Waiting (k.procs t).priority (k.procs t)

    at : (p : ℕ) → p < 4 → ltb 0 (count t (k.queue p)) ≡ true → Here
    at p h e =
        let some_here : 0 < count t (k.queue p) = ground arith in
        let w = v.placed p t h some_here in
        let le = count-le-queued k.queue t p h in
        let o = v.once t in
        let same : (k.procs t).priority ≡ p = w.at in
        (
          rw same h,
          rw same (omega arith),
          omega arith,
          record { is_ready = w.is_ready; at = refl; framed = w.framed },
        )

    first :
        (ltb 0 (count t (k.queue 0)) ≡ true) ⊎ (ltb 0 (count t (k.queue 0)) ≡ false)
        → (ltb 0 (count t (k.queue 1)) ≡ true) ⊎ (ltb 0 (count t (k.queue 1)) ≡ false)
        → (ltb 0 (count t (k.queue 2)) ≡ true) ⊎ (ltb 0 (count t (k.queue 2)) ≡ false)
        → (ltb 0 (count t (k.queue 3)) ≡ true) ⊎ (ltb 0 (count t (k.queue 3)) ≡ false)
        → (queued t k.queue ≡ 0) ⊎ Here
    first (inl e) b c d = inr (at 0 (omega arith) e)
    first (inr a) (inl e) c d = inr (at 1 (omega arith) e)
    first (inr a) (inr b) (inl e) d = inr (at 2 (omega arith) e)
    first (inr a) (inr b) (inr c) (inl e) = inr (at 3 (omega arith) e)
    first (inr a) (inr b) (inr c) (inr d) = inl (ground arith)
