-- ===== src/Sched/Runs.antt =====
-- Runs of Kernel/process/sched.c: process 0 idles, process 1 runs, process 2 waits.
use tp2_kernel.Base.{
  ℕ, ◌+◌, ◌<◌, ◌≡◌, refl, true, some, List, [], ◌∷◌, arith, count, ◌==◌, if◌then◌else◌,
}
use tp2_kernel.Sched.{Pcb, Sched, ready, running, schedule}
use tp2_kernel.Sched.Invariant.{Waiting, Queues, Inv}
use tp2_kernel.Sched.Schedule.{schedule-Inv}
use tp2_kernel.Sched.Liveness.{Alive, schedule-Alive, passes, passes_promote}

abbrev proc_table : ℕ → Pcb
proc_table s =
    if s == 2
    then record {
      pid = 3;
      priority = 1;
      base_priority = 1;
      state = ready;
      kframe = 700;
      ticks_left = 5;
      aging_ticks = 8;
    }
    else record {
      pid = s + 1;
      priority = 2;
      base_priority = 2;
      state = running;
      kframe = 500;
      ticks_left = 1;
      aging_ticks = 0;
    }

abbrev level_one : ℕ → List ℕ
level_one p = if p == 1 then 2 ∷ [] else []

abbrev sample : Sched
sample = record {
  procs = proc_table;
  queue = level_one;
  scheduler_enabled = true;
  current = some 1;
  idle_proc = some 0;
}

sample_placed : (p t : ℕ) → p < 4 → 0 < count t (level_one p) → Waiting p (proc_table t)
sample_placed p t h some_here =
    let at : p ≡ 1 = ground arith in
    let who : 2 ≡ t = ground arith in
    rw (← who, at) (record { is_ready = refl; at = refl; framed = ground arith })

sample-Queues : Queues sample
sample-Queues = record {
  placed = sample_placed;
  once = λ t. ground arith;
  base = λ t. ground arith;
  idle_out = λ i e. ground (arith, e);
}

sample-Inv : Inv sample
sample-Inv = record { queues = sample-Queues; current_out = λ c e. ground (arith, e) }

schedule-Inv_example : Inv (schedule 900 sample).1
schedule-Inv_example = schedule-Inv 900 sample (ground arith) sample-Inv

schedule-Alive_example : Alive 2 (schedule 900 sample).1
schedule-Alive_example = schedule-Alive 900 2 sample (ground arith) sample-Inv refl

passes_promote_example :
    let b = (passes 2 sample).procs 2 in
    (b.priority ≡ 2)
    × (count 2 ((passes 2 sample).queue b.priority) ≡ 1)
    × (((passes 1 sample).procs 2).priority ≡ 1)
passes_promote_example = passes_promote 1 2 sample sample-Queues refl (omega arith) refl
