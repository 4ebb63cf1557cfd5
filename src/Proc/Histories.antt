-- ===== src/Proc/Histories.antt =====
-- Histories of the operations of Kernel/process/proc.c between two ticks of the scheduler.
use tp2_kernel.Base.{ℕ, ◌≡◌, ◌≢◌, Bool, Option, some, List, ℤ}
use tp2_kernel.Sched.{new}
use tp2_kernel.Sched.Changes.{Sound}
use tp2_kernel.Proc.{Kernel, state_of, collect_zombies}
use tp2_kernel.Proc.Life.{proc_unblock}
use tp2_kernel.Proc.Life.Scheduling.{proc_unblock-Sound, collect_zombies-Sound}
use tp2_kernel.Proc.Calls.{proc_exit, proc_kill, proc_block, proc_nice}
use tp2_kernel.Proc.Calls.Scheduling.{proc_exit-Sound, proc_kill-Sound}
use tp2_kernel.Proc.Calls.Blocking.{block_target, proc_block-Sound}
use tp2_kernel.Proc.Calls.Nice.{proc_nice-Sound}
use tp2_kernel.Proc.Create.{proc_create, setup_stack}
use tp2_kernel.Proc.Create.Scheduling.{free_slot, Unknown, proc_create-Sound}

-- One operation, by the process that runs or by an interrupt. A process that blocks another one has
-- found one that is not being made; a new process gets a slot that the scheduler does not know, and
-- a frame that is not at the address 0; the idle process changes no priority.
pub data Step : Kernel → Kernel → Type 0 where
  collect : (k : Kernel) → Step k (collect_zombies k)
  unblock : (pid : ℤ) (k : Kernel) → Step k (proc_unblock pid k).1
  kill : (allocated : Bool) (pid : ℤ) (k : Kernel) → Step k (proc_kill allocated pid k).1
  exit : (allocated : Bool) (code : ℤ) (k : Kernel) → Step k (proc_exit allocated code k)
  block :
      (pid : ℤ) (k : Kernel)
      → ((s : ℕ)
          → block_target pid (collect_zombies k) ≡ some s
          → (state_of s k ≢ new) × (k.sched.current ≢ some s))
      → Step k (proc_block pid k).1
  nice :
      (pid new_prio : ℤ) (k : Kernel)
      → ((s : ℕ) → k.sched.current ≡ some s → k.sched.idle_proc ≢ some s)
      → Step k (proc_nice pid new_prio k)
  create :
      (trampoline : ℕ) (stack table : Option ℕ) (prio : ℤ) (fg : Bool) (name : List ℕ) (k : Kernel)
      → ((s : ℕ) → free_slot (collect_zombies k) ≡ some s → Unknown s k.sched)
      → ((s base : ℕ) → stack ≡ some base → (setup_stack trampoline s base).0 ≢ 0)
      → Step k (proc_create trampoline stack table prio fg name k).1

pub data Steps : Kernel → Kernel → Type 0 where
  done : (k : Kernel) → Steps k k
  next : (k₁ k₂ k₃ : Kernel) → Step k₁ k₂ → Steps k₂ k₃ → Steps k₁ k₃

Step-Sound : (k k' : Kernel) → Step k k' → Sound k.sched → Sound k'.sched
Step-Sound _ _ (collect k) v = collect_zombies-Sound k v
Step-Sound _ _ (unblock pid k) v = proc_unblock-Sound pid k v
Step-Sound _ _ (kill a pid k) v = proc_kill-Sound a pid k v
Step-Sound _ _ (exit a code k) v = proc_exit-Sound a code k v
Step-Sound _ _ (block pid k other) v = proc_block-Sound pid k other v
Step-Sound _ _ (nice pid prio k busy) v = proc_nice-Sound pid prio k busy v
Step-Sound _ _ (create tr stack table prio fg name k unknown frame) v =
    proc_create-Sound tr stack table prio fg name k unknown frame v

-- Any history of creating, blocking, unblocking, killing, ending and reprioritising processes, in which
-- a process blocks others only, keeps the scheduler sound: every queued process is READY, has a frame
-- and stands once, in the queue of its priority; the idle process is in no queue and not BLOCKED, nor
-- is the current one.
pub Steps-Sound : (k k' : Kernel) → Steps k k' → Sound k.sched → Sound k'.sched
Steps-Sound _ _ (done k) v = v
Steps-Sound _ _ (next k₁ k₂ k₃ s rest) v = Steps-Sound k₂ k₃ rest (Step-Sound k₁ k₂ s v)
