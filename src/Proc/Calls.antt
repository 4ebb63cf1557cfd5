-- ===== src/Proc/Calls.antt =====
-- Kernel/process/proc.c: the operations that the system calls use. Where the process gives up the
-- processor, `sched_force_yield`, the operation ends or is given what the others do meanwhile.
pub mod Scheduling
pub mod Blocking
pub mod Nice
pub mod Waiting
use tp2_kernel.Base.{
  ℕ, zero, suc, ◌+◌, ◌*◌, ◌/◌, ◌^◌, Bool, true, false, not, ◌&&◌, ◌||◌, Option, none, some, List,
  [], ◌∷◌, ◌++◌, ltb, leb, ◌==◌, if◌then◌else◌, update, take, ℤ, pos, negsuc, is_positive, add64,
  sub64,
}
use tp2_kernel.Sched
use tp2_kernel.Sched.{
  Pcb, ready, blocked, new, is_ready, is_running, is_slot, time_slice_ticks, sched_enqueue,
  sched_remove,
}
use tp2_kernel.WaitResults.{WaitResult, WaitResults, consume_wait_result, consume_pending}
use tp2_kernel.Tty.{tty_set_foreground}
use tp2_kernel.Fd.{fd_table_create, fd_table_clone, fd_table_attach_std}
use tp2_kernel.Sem.{ksem_remove_waiters_for}
use tp2_kernel.Sem.Handles.{sem_cleanup_process_handles}
use tp2_kernel.Proc.{
  Info, Kernel, set_info, set_proc, state_of, pid_of, is_exited, first_slot, max_procs, proc_by_pid,
  proc_set_foreground, collect_zombies, allocate_slot, release_slot, free_stack, insert_proc,
}
use tp2_kernel.Proc.Life.{
  is_blocked, link_child, find_child, unready, mark_exited, drop_pending, bury,
}

-- `ksem_remove_waiters_for` of a process.
abbrev pub leave_sems : ℕ → Kernel → Kernel
leave_sems s k = record k {
  sems = record k.sems { table = ksem_remove_waiters_for s k.sems.table };
}

abbrev pub free_tty : Kernel → Kernel
free_tty k = record k { tty = tty_set_foreground none k.tty }

-- `parent != NULL && parent->state != EXITED`
abbrev pub is_alive : Option ℕ → Kernel → Bool
is_alive none k = false
is_alive (some s) k = not (is_exited (state_of s k))

-- The foreground given back to the living parent of a process in front, and otherwise as `other` says.
pub give_back : ℕ → (Kernel → Kernel) → Kernel → Kernel
give_back s other k =
    if (k.info s).fg
    then elim (k.info s).parent_pid [
      | none ↦ other k
      | some p ↦ if is_alive (proc_by_pid (pos p) k) k then proc_set_foreground p k else other k
    ]
    else k

-- `proc_exit`, up to `sched_force_yield`.
pub proc_exit : Bool → ℤ → Kernel → Kernel
unfolding give_back
proc_exit allocated code k =
    let k' = collect_zombies k in
    elim k'.sched.current [
      | none ↦ k'
      | some s ↦
          if is_slot s k'.sched.idle_proc
          then k'
          else (let k₁ = leave_sems s k' in
              let k₂ = record k₁ { sems = sem_cleanup_process_handles (pid_of s k₁) k₁.sems } in
              bury allocated s (mark_exited code s (give_back s free_tty k₂)))
    ]

-- "shell"
abbrev pub shell_name : List ℕ
shell_name = 115 ∷ 104 ∷ 101 ∷ 108 ∷ 108 ∷ []

abbrev pub same_bytes : List ℕ → List ℕ → Bool
same_bytes [] [] = true
same_bytes [] (y ∷ ys) = false
same_bytes (x ∷ xs) [] = false
same_bytes (x ∷ xs) (y ∷ ys) = x == y && same_bytes xs ys

abbrev pub is_shell : Kernel → ℕ → Bool
is_shell k s =
    (k.info s).used && (not (is_exited (state_of s k)) && same_bytes (k.info s).name shell_name)

-- The process in front is killed and has no living parent.
pub to_shell : Kernel → Kernel
to_shell k = elim (first_slot max_procs 0 (is_shell k)) [
  | none ↦ free_tty k
  | some s ↦ proc_set_foreground (pid_of s k) k
]

-- `proc_kill` of a process that is not idle.
pub kill_slot : Bool → ℕ → Kernel → Kernel
unfolding give_back to_shell proc_exit
kill_slot allocated s k =
    let k' = give_back s to_shell (leave_sems s k) in
    if not (is_ready (state_of s k')) && is_slot s k'.sched.current
    then proc_exit allocated (pos zero) k'
    else collect_zombies
        (bury allocated s (drop_pending s (mark_exited (pos zero) s (unready s k'))))

-- `proc_kill`: success, and the kernel; a process that kills itself does not come back.
pub proc_kill : Bool → ℤ → Kernel → Bool × Kernel
unfolding kill_slot
proc_kill allocated pid k =
    let k' = collect_zombies k in
    elim (proc_by_pid pid k') [
      | none ↦ (false, k')
      | some s ↦
          if is_slot s k'.sched.idle_proc then (false, k') else (true, kill_slot allocated s k')
    ]

abbrev pub halted : Pcb → Pcb
halted p = record p { state = blocked; ticks_left = 0 }

abbrev pub block_slot : ℕ → Kernel → Kernel
block_slot s k =
    let k' = if is_slot s k.sched.current then k else unready s k in
    set_proc s (halted (k'.sched.procs s)) k'

-- `proc_block`: success, and the kernel, before a process that blocks itself yields.
pub proc_block : ℤ → Kernel → Bool × Kernel
proc_block pid k =
    let k' = collect_zombies k in
    let target = if is_positive pid then proc_by_pid pid k' else k'.sched.current in
    elim target [
      | none ↦ (false, k')
      | some s ↦
          if is_slot s k'.sched.idle_proc || is_exited (state_of s k')
          then (false, k')
          else if is_blocked (state_of s k')
          then (true, k')
          else (true, block_slot s k')
    ]

abbrev pub clamp : ℤ → ℕ
clamp (pos n) = if ltb 3 n then 3 else n
clamp (negsuc n) = 0

-- `proc_nice` of a process whose priority differs, before a process that was running yields.
pub nice_slot : ℕ → ℕ → Kernel → Kernel
nice_slot prio s k =
    let p = k.sched.procs s in
    let k₁ = set_proc s (record p { base_priority = prio; aging_ticks = 0 }) k in
    let was_running = is_running (state_of s k) && is_slot s k.sched.current in
    let k₂ =
      if is_ready (state_of s k)
      then record k₁ { sched = sched_remove s k₁.sched }
      else if was_running
      then record k₁ {
        sched =
            sched_remove s (Sched.set_pcb s (record (k₁.sched.procs s) { state = ready }) k₁.sched);
      }
      else k₁ in
    let k₃ = set_proc s (record (k₂.sched.procs s) { priority = prio }) k₂ in
    if is_ready (state_of s k) || was_running
    then record k₃ { sched = sched_enqueue s k₃.sched }
    else k₃

pub proc_nice : ℤ → ℤ → Kernel → Kernel
unfolding nice_slot
proc_nice pid new_prio k =
    let k' = collect_zombies k in
    elim (proc_by_pid pid k') [
      | none ↦ k'
      | some s ↦
          if (k'.sched.procs s).priority == clamp new_prio
          then k'
          else nice_slot (clamp new_prio) s k'
    ]

-- 0 means any child, like -1.
abbrev pub any_child : ℤ → ℤ
any_child (pos zero) = negsuc zero
any_child target = target

-- A result taken by `take` out of those of the process in slot `p`.
abbrev pub take_result :
    (ℤ → WaitResults → Option WaitResult × WaitResults)
    → ℤ
    → ℕ
    → Kernel
    → Option WaitResult × Kernel
take_result take target p k =
    let (r, w) = take target (k.info p).results in
    (r, set_info p (record (k.info p) { results = w }) k)

abbrev pub set_waiter : Option ℕ → Option ℕ → Kernel → Kernel
set_waiter none waiter k = k
set_waiter (some c) waiter k = set_info c (record (k.info c) { waiter_head = waiter }) k

-- `proc_wait` from `parent->waiting_for = target_pid` on, with the child that is waited for and what
-- the others do meanwhile.
pub wait_asleep : Option ℕ → ℤ → (Kernel → Kernel) → ℕ → Kernel → Option WaitResult × Kernel
wait_asleep child target meanwhile p k =
    let k₁ = set_info p (record (k.info p) { waiting_for = target }) k in
    let k₂ = collect_zombies (meanwhile (set_proc p (halted (k₁.sched.procs p)) k₁)) in
    let (r, k₃) = take_result consume_wait_result target p k₂ in
    let k₄ = set_info p (record (k₃.info p) { waiting_for = pos zero }) k₃ in
    let k₅ = set_waiter child none k₄ in
    elim r [ none ↦ take_result consume_pending target p k₅ | some x ↦ (some x, k₅) ]

-- `proc_wait` when there is no result yet.
pub wait_child : ℤ → (Kernel → Kernel) → ℕ → Kernel → Option WaitResult × Kernel
unfolding wait_asleep
wait_child target meanwhile p k =
    if is_positive target
    then elim (find_child p target k) [
      | none ↦ take_result consume_pending target p k
      | some c ↦ wait_asleep (some c) target meanwhile p (set_waiter (some c) (some p) k)
    ]
    else elim (k.info p).children [
      | [] ↦ take_result consume_pending target p k
      | c ∷ cs ↦ wait_asleep none target meanwhile p k
    ]

-- `proc_wait`: the result, `none` for -1. Every pid is positive.
pub proc_wait : ℤ → (Kernel → Kernel) → Kernel → Option WaitResult × Kernel
unfolding wait_child
proc_wait target_pid meanwhile k =
    let k' = collect_zombies k in
    let target = any_child target_pid in
    elim k'.sched.current [
      | none ↦ (none, k')
      | some p ↦
          let (r, k'') = take_result consume_wait_result target p k' in
          elim r [ none ↦ wait_child target meanwhile p k'' | some x ↦ (some x, k'') ]
    ]
