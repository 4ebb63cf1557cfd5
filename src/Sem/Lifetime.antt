-- ===== src/Sem/Lifetime.antt =====
-- How a semaphore of Kernel/ipc/semaphore.c ends: `ksem_close`, the removal of a process from a queue,
-- and a post whose process cannot be woken.
use tp2_kernel.Base.{
  ℕ, ◌-◌, ◌≡◌, ◌≢◌, ◌↔◌, refl, true, false, List, [], ◌∷◌, arith, ◌==◌, count, Bool-cases, inl, inr,
}
use tp2_kernel.Sem.{Sem, ksem_close, sem_ready_to_destroy_locked, wait_queue_remove_proc}

-- What a close does on every branch.
pub record Closing (m : Sem) : Type 0 where
  pub success : ((ksem_close m).0 ≡ true) ↔ (m.refcount ≢ 0)
  pub freed :
      ((ksem_close m).1.0 ≡ true)
      ↔ ((m.refcount ≡ 1) × (m.unlinked ≡ true) × (m.waiters ≡ []) × (m.destroying ≡ false))
  pub refs : (ksem_close m).1.1.refcount ≡ m.refcount - 1
  pub rest :
      ((ksem_close m).1.1.count ≡ m.count)
      × ((ksem_close m).1.1.waiters ≡ m.waiters)
      × ((ksem_close m).1.0 ≡ true → (ksem_close m).1.1.destroying ≡ true)

-- A close fails exactly without a user left to close, and frees exactly the semaphore whose last
-- user it was, that is unlinked, that no process waits for and that is not being freed already.
pub ksem_close-Closing : (m : Sem) → Closing m
unfolding ksem_close sem_ready_to_destroy_locked
ksem_close-Closing m = record {
  success = ground arith;
  freed = ground arith;
  refs = ground arith;
  rest = ground arith;
}

-- What the removal of a process from a queue does.
pub record Removed (s : ℕ) (q : List ℕ) : Type 0 where
  pub gone : count s (wait_queue_remove_proc s q).0 ≡ 0
  pub others : (t : ℕ) → t ≢ s → count t (wait_queue_remove_proc s q).0 ≡ count t q
  pub nodes : count s (wait_queue_remove_proc s q).1 ≡ count s q

-- The removal of a process from a queue takes each of its nodes out, hands them all back, and leaves
-- every other process as often as it was.
pub wait_queue_remove_proc-Removed : (s : ℕ) (q : List ℕ) → Removed s q
unfolding wait_queue_remove_proc
wait_queue_remove_proc-Removed s [] = record { gone = refl; others = λ t ne. refl; nodes = refl }
wait_queue_remove_proc-Removed s (u ∷ q) =
    let ih = wait_queue_remove_proc-Removed s q in
    elim (Bool-cases (u == s)) [
      | inl e ↦ record {
        gone = rw e ih.gone;
        others = λ t ne.
            let no : (u == t) ≡ false = ground arith in
            rw e (rw no (omega (arith, ih.others t ne)));
        nodes = rw e (ground (arith, ih.nodes));
      }
      | inr e ↦ record {
        gone = rw e (rw e (omega (arith, ih.gone)));
        others = λ t ne. rw e (ground (arith, ih.others t ne));
        nodes = rw e (omega (arith, ih.nodes));
      }
    ]
