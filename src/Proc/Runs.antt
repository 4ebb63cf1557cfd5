-- ===== src/Proc/Runs.antt =====
-- Runs of Kernel/process/proc.c: slot 0 idles, the shell in slot 1 runs with the pid 2, and its child in
-- slot 2 waits for the processor with the pid 3.
use tp2_kernel.Base.{
  ℕ, ◌+◌, ◌<◌, ◌≡◌, refl, true, false, none, some, List, [], ◌∷◌, arith, count, ◌==◌, ltb,
  if◌then◌else◌, pos,
}
use tp2_kernel.Sched.{Pcb, ready, running}
use tp2_kernel.Sched.Invariant.{Waiting}
use tp2_kernel.Sched.Changes.{Sound}
use tp2_kernel.Tty.{tty_default}
use tp2_kernel.Fd.{Fds, fd_tty}
use tp2_kernel.Sem.Handles.{Handles}
use tp2_kernel.Proc.{
  Info, Kernel, blank, blank_pcb, collect_zombies, proc_by_pid, proc_set_foreground, first_slot,
  collect_from,
}
use tp2_kernel.Proc.Life.{notify_parent_exit}
use tp2_kernel.Proc.Life.Telling.{Told, notify_parent_exit-Told}
use tp2_kernel.Proc.Calls.{proc_kill, proc_exit, proc_wait}
use tp2_kernel.Proc.Calls.Waiting.{WaitOutcome, proc_wait-WaitOutcome}
use tp2_kernel.Proc.Zombies.{Collected, collect_zombies-Collected}
use tp2_kernel.Proc.Foreground.{Fronted, proc_set_foreground-Fronted}
use tp2_kernel.Proc.Histories.{done, next, kill, exit, Steps-Sound}

abbrev pcbs : ℕ → Pcb
pcbs s =
    if ltb s 3
    then record {
      pid = s + 1;
      priority = 1;
      base_priority = 1;
      state = if s == 2 then ready else running;
      kframe = 500 + s;
      ticks_left = 5;
      aging_ticks = 0;
    }
    else blank_pcb

abbrev level_one : ℕ → List ℕ
level_one p = if p == 1 then 2 ∷ [] else []

abbrev infos : ℕ → Info
infos s =
    if ltb s 3
    then record blank {
      used = true;
      kstack_base = 4096 + s;
      parent_pid = if s == 2 then some 2 else none;
      children = if s == 1 then 2 ∷ [] else [];
    }
    else blank

abbrev no_fds : Fds
no_fds = record {
  files = λ a. record {
    type = fd_tty;
    ptr = 0;
    can_read = true;
    can_write = true;
    fg_read_guard = false;
    refcount = 0;
  };
  entries = λ t fd. none;
  closed = [];
  stdin_file = none;
  stdout_file = none;
  stderr_file = none;
}

abbrev no_sems : Handles
no_sems = record {
  table = record {
    buckets = λ b. [];
    at = λ a. record {
      name = [];
      count = 0;
      refcount = 0;
      unlinked = false;
      destroying = false;
      waiters = [];
    };
  };
  entries = λ i. none;
}

abbrev sample : Kernel
sample = record {
  sched = record {
    procs = pcbs;
    queue = level_one;
    scheduler_enabled = true;
    current = some 1;
    idle_proc = some 0;
  };
  info = infos;
  active = 1 ∷ 2 ∷ [];
  zombies = [];
  next_pid = 4;
  tty = tty_default;
  fds = no_fds;
  sems = no_sems;
  freed = [];
}

sample_placed : (p t : ℕ) → p < 4 → 0 < count t (level_one p) → Waiting p (pcbs t)
sample_placed p t h some_here =
    let at : p ≡ 1 = ground arith in
    let who : 2 ≡ t = ground arith in
    rw (← who, at) (record { is_ready = refl; at = refl; framed = ground arith })

sample-Sound : Sound sample.sched
sample-Sound = record {
  inv = record {
    queues = record {
      placed = sample_placed;
      once = λ t. ground arith;
      base = λ t. ground arith;
      idle_out = λ i e. ground (arith, e);
    };
    current_out = λ c e. ground (arith, e);
  };
  framed = λ t live. ground (arith, live);
  idle_awake = λ i e. ground (arith, e);
  current_awake = λ c e. ground (arith, e);
}

-- The shell kills its child and ends.
Steps-Sound_example : Sound (proc_exit true (pos 0) (proc_kill true (pos 3) sample).1).sched
Steps-Sound_example =
    Steps-Sound sample (proc_exit true (pos 0) (proc_kill true (pos 3) sample).1)
      (next sample (proc_kill true (pos 3) sample).1 _ (kill true (pos 3) sample) (
        next (proc_kill true (pos 3) sample).1 _ _
          (exit true (pos 0) (proc_kill true (pos 3) sample).1) (done _)))
      sample-Sound

proc_set_foreground-Fronted_example : Fronted 3 sample (proc_set_foreground 3 sample)
proc_set_foreground-Fronted_example = proc_set_foreground-Fronted 2 sample

-- The child is a zombie that nobody waits for.
abbrev with_zombie : Kernel
with_zombie = record sample {
  zombies = 2 ∷ [];
  info = λ s. if s == 2 then record (infos 2) { parent_pid = none; exited = true } else infos s;
}

collect_zombies-Collected_example : Collected with_zombie (collect_zombies with_zombie)
collect_zombies-Collected_example = collect_zombies-Collected with_zombie

notify_parent_exit-Told_example : Told 2 1 sample (notify_parent_exit true 2 sample)
unfolding proc_by_pid first_slot
notify_parent_exit-Told_example = notify_parent_exit-Told 2 1 2 sample refl refl refl refl refl refl

-- The child ends while the shell waits for it.
proc_wait-WaitOutcome_example :
    WaitOutcome
      (pos 3)
      (notify_parent_exit true 2)
      1
      sample
      (proc_wait (pos 3) (notify_parent_exit true 2) sample).0
unfolding collect_zombies collect_from
proc_wait-WaitOutcome_example =
    proc_wait-WaitOutcome (pos 3) (notify_parent_exit true 2) 1 sample refl
