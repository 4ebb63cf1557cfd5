-- ===== src/Proc/Life.antt =====
-- Kernel/process/proc.c: parents and children, and the end of a process.
-- `mm_malloc` of a wait result is given by its outcome.
pub mod Scheduling
pub mod Telling
use tp2_kernel.Base.{
  ℕ, zero, suc, Bool, true, false, not, ◌&&◌, ◌||◌, Option, none, some, List, [], ◌∷◌, ◌++◌, ltb,
  ◌==◌, if◌then◌else◌, update, ℤ, pos, negsuc, ◌==ℤ◌,
}
use tp2_kernel.Sched
use tp2_kernel.Sched.{
  Pcb, ProcState, ready, blocked, exited, is_ready, is_slot, time_slice_ticks, sched_enqueue,
  sched_remove,
}
use tp2_kernel.WaitResults.{WaitResult, push_wait_result, cleanup_wait_results}
use tp2_kernel.Proc.{
  Info, Kernel, set_info, set_proc, state_of, pid_of, is_exited, first_slot, max_procs, proc_by_pid,
  proc_set_foreground, close_fds, remove_proc, enqueue_zombie, collect_zombies,
}

abbrev pub is_blocked : ProcState → Bool
is_blocked blocked = true
is_blocked _ = false

pub link_child : ℕ → ℕ → Kernel → Kernel
link_child p c k = set_info p (record (k.info p) { children = c ∷ (k.info p).children }) k

pub unlink_child : ℕ → ℕ → Kernel → Kernel
unlink_child p c k =
    set_info p (record (k.info p) { children = Sched.unlink c (k.info p).children }) k

abbrev pub find_pid : ℕ → (ℕ → ℕ) → List ℕ → Option ℕ
find_pid pid pids [] = none
find_pid pid pids (c ∷ cs) = if pids c == pid then some c else find_pid pid pids cs

pub find_child : ℕ → ℤ → Kernel → Option ℕ
find_child p (negsuc n) k = none
find_child p (pos zero) k = none
find_child p (pos (suc n)) k = find_pid (suc n) (λ c. pid_of c k) (k.info p).children

-- The process as `proc_unblock` hands it to the scheduler.
abbrev pub rested : Pcb → Pcb
rested p = record p { state = ready; ticks_left = time_slice_ticks; aging_ticks = 0 }

abbrev pub wake : ℕ → Kernel → Kernel
wake s k = record k { sched = sched_enqueue s (Sched.set_pcb s (rested (k.sched.procs s)) k.sched) }

-- `proc_unblock`: success, and the kernel.
pub proc_unblock : ℤ → Kernel → Bool × Kernel
unfolding collect_zombies proc_by_pid
proc_unblock pid k =
    let k' = collect_zombies k in
    elim (proc_by_pid pid k') [
      | none ↦ (false, k')
      | some s ↦ if is_blocked (state_of s k') then (true, wake s k') else (false, k')
    ]

abbrev pub result_of : ℕ → Kernel → WaitResult
result_of s k = record { child_pid = pid_of s k; exit_code = (k.info s).exit_code }

abbrev pub waits_for : ℕ → ℕ → Kernel → Bool
waits_for pid q k =
    is_blocked (state_of q k)
    && ((k.info q).waiting_for ==ℤ pos pid || (k.info q).waiting_for ==ℤ negsuc zero)

-- The end of `notify_parent_exit`, where a waiting parent is woken.
pub wake_parent : ℕ → ℕ → Kernel → Kernel
unfolding proc_unblock
wake_parent q pid k =
    if waits_for pid q k
    then (proc_unblock (pos (pid_of q k))
        (set_info q (record (k.info q) { waiting_for = pos zero }) k)).1
    else k

-- The result handed to the parent in slot `q`.
pub deliver : Bool → ℕ → ℕ → Kernel → Kernel
unfolding unlink_child
deliver allocated q s k =
    let k₁ = unlink_child q s k in
    let i = k₁.info q in
    let k₂ =
      set_info q (record i { results = push_wait_result allocated (result_of s k₁) i.results })
        k₁ in
    set_info s (record (k₂.info s) { parent_pid = none }) k₂

pub notify_parent_exit : Bool → ℕ → Kernel → Kernel
unfolding proc_by_pid deliver wake_parent
notify_parent_exit allocated s k =
    let k' = set_info s (record (k.info s) { zombie_reapable = true; waiter_head = none }) k in
    elim (k.info s).parent_pid [
      | none ↦ k'
      | some p ↦ elim (proc_by_pid (pos p) k') [
        | none ↦ k'
        | some q ↦ wake_parent q (pid_of s k') (deliver allocated q s k')
      ]
    ]

-- The loop over the children of a child that is ended with its parent.
pub orphan : ℕ → List ℕ → Kernel → Kernel
orphan c [] k = k
orphan c (g ∷ gs) k =
    let i = k.info g in
    orphan c gs (
      set_info g
        (record i {
          parent_pid = none;
          waiter_head = if is_slot c i.waiter_head then none else i.waiter_head;
        })
        k)

-- `sched_remove` of a process that is READY.
abbrev pub unready : ℕ → Kernel → Kernel
unready s k = if is_ready (state_of s k) then record k { sched = sched_remove s k.sched } else k

-- The fields that mark the end of a process.
pub mark_exited : ℤ → ℕ → Kernel → Kernel
mark_exited code s k =
    set_info s
      (record (k.info s) {
        exit_code = code;
        exited = true;
        waiting_for = pos zero;
        waiter_head = none;
      })
      (set_proc s (record (k.sched.procs s) { state = exited; ticks_left = 0 }) k)

abbrev pub clear_results : ℕ → Kernel → Kernel
clear_results s k =
    set_info s (record (k.info s) { results = cleanup_wait_results (k.info s).results }) k

abbrev pub drop_pending : ℕ → Kernel → Kernel
drop_pending s k =
    let i = k.info s in set_info s (record i { results = record i.results { pending = none } }) k

-- A living child in the loop of `detach_children`.
pub end_child : ℕ → Kernel → Kernel
unfolding mark_exited orphan remove_proc enqueue_zombie
end_child c k =
    let k₁ = drop_pending c (mark_exited (pos zero) c (unready c k)) in
    let gs = (k₁.info c).children in
    let k₂ = set_info c (record (k₁.info c) { parent_pid = none; children = [] }) k₁ in
    enqueue_zombie c (clear_results c (remove_proc c (orphan c gs k₂)))

-- A child that has ended already.
pub forget_child : ℕ → ℕ → Kernel → Kernel
forget_child p c k =
    let i = k.info c in
    set_info c
      (record i {
        parent_pid = if is_slot (pid_of p k) i.parent_pid then none else i.parent_pid;
        waiter_head = if is_slot p i.waiter_head then none else i.waiter_head;
      })
      k

pub detach_each : ℕ → List ℕ → Kernel → Kernel
unfolding end_child forget_child
detach_each p [] k = k
detach_each p (c ∷ cs) k =
    detach_each p cs (if is_exited (state_of c k) then forget_child p c k else end_child c k)

pub detach_children : ℕ → Kernel → Kernel
unfolding detach_each
detach_children p k =
    detach_each p (k.info p).children (set_info p (record (k.info p) { children = [] }) k)

-- The common end of `proc_exit` and `proc_kill`, from `detach_children` to `enqueue_zombie`.
pub bury : Bool → ℕ → Kernel → Kernel
unfolding detach_children remove_proc notify_parent_exit enqueue_zombie
bury allocated s k =
    let k' = notify_parent_exit allocated s (remove_proc s (detach_children s k)) in
    enqueue_zombie s (clear_results s (close_fds s k'))
