-- ===== src/Proc.antt =====
-- Kernel/process/proc.c and Kernel/include/sched.h: the table of processes and their lists.
-- A `pcb_t *` is the number of its slot. The fields of `pcb_t` that sched.c reads are in the
-- scheduler's own table, the others in `Info`. `child_head` and `sibling_next` are a list at the
-- parent, `proc_head`, `next` and `prev` the list `active`, `zombie_head` and `cleanup_next` the list
-- `zombies`. `entry`, `argc` and `argv`, which only the new process reads, are left out.
pub mod Life
pub mod Calls
pub mod Create
pub mod Zombies
pub mod Foreground
pub mod Histories
mod Runs
use tp2_kernel.Base.{
  ℕ, zero, suc, ◌+◌, ◌-◌, ◌^◌, Bool, true, false, not, ◌&&◌, ◌||◌, Option, none, some, List, [],
  ◌∷◌, ◌++◌, ltb, leb, ◌==◌, if◌then◌else◌, update, count, ℤ, pos, negsuc,
}
use tp2_kernel.Sched
use tp2_kernel.Sched.{Pcb, Sched, ProcState, new, exited, time_slice_ticks}
use tp2_kernel.Names.{name_copy}
use tp2_kernel.WaitResults.{WaitResults, no_results, cleanup_wait_results}
use tp2_kernel.Tty.{Tty, tty_set_foreground, tty_get_foreground}
use tp2_kernel.Fd.{Fds, fd_table_destroy}
use tp2_kernel.Sem.Handles.{Handles}

-- MAX_PROCS
abbrev pub max_procs : ℕ
max_procs = 128

-- The fields of `pcb_t` that sched.c does not read; `parent_pid` -1 is `none`, `kstack_base` 0 the null
-- pointer.
pub record Info : Type 0 where
  pub used : Bool
  pub name : List ℕ
  pub kstack_base : ℕ
  pub parent_pid : Option ℕ
  pub fg : Bool
  pub exit_code : ℤ
  pub waiting_for : ℤ
  pub children : List ℕ
  pub waiter_head : Option ℕ
  pub results : WaitResults
  pub exited : Bool
  pub zombie_reapable : Bool
  pub fd_table : Option ℕ

-- The state of the kernel that proc.c reads and writes, and the stacks given back to `mm_free`, the
-- last one first.
pub record Kernel : Type 0 where
  pub sched : Sched
  pub info : ℕ → Info
  pub active : List ℕ
  pub zombies : List ℕ
  pub next_pid : ℕ
  pub tty : Tty
  pub fds : Fds
  pub sems : Handles
  pub freed : List ℕ

abbrev pub set_info : ℕ → Info → Kernel → Kernel
set_info s i k = record k { info = update k.info s i }

abbrev pub set_proc : ℕ → Pcb → Kernel → Kernel
set_proc s p k = record k { sched = Sched.set_pcb s p k.sched }

abbrev pub state_of : ℕ → Kernel → ProcState
state_of s k = (k.sched.procs s).state

abbrev pub pid_of : ℕ → Kernel → ℕ
pid_of s k = (k.sched.procs s).pid

abbrev pub is_exited : ProcState → Bool
is_exited exited = true
is_exited _ = false

-- A loop over the `n` slots from `i` up that stops at the first one with the test.
pub first_slot : ℕ → ℕ → (ℕ → Bool) → Option ℕ
first_slot zero i test = none
first_slot (suc n) i test = if test i then some i else first_slot n (i + 1) test

-- `procs[i].used && procs[i].pid == pid`
abbrev pub has_pid : ℕ → Kernel → ℕ → Bool
has_pid pid k s = (k.info s).used && pid_of s k == pid

pub proc_by_pid : ℤ → Kernel → Option ℕ
unfolding first_slot
proc_by_pid (negsuc n) k = none
proc_by_pid (pos zero) k = none
proc_by_pid (pos (suc n)) k = first_slot max_procs 0 (has_pid (suc n) k)

-- The fallback of `proc_get_foreground_pid`.
abbrev pub in_front : Kernel → ℕ → Bool
in_front k s = (k.info s).used && ((k.info s).fg && not (is_exited (state_of s k)))

pub proc_get_foreground_pid : Kernel → Option ℕ
unfolding first_slot
proc_get_foreground_pid k = elim (tty_get_foreground k.tty) [
  | some pid ↦ some pid
  | none ↦ elim (first_slot max_procs 0 (in_front k)) [ none ↦ none | some s ↦ some (pid_of s k) ]
]

-- The mark of the new process.
abbrev pub mark_front : Option ℕ → Kernel → Kernel
mark_front none k = k
mark_front (some s) k = set_info s (record (k.info s) { fg = true }) k

-- The mark of one slot in the last loop of `proc_set_foreground`.
abbrev pub unmark : ℕ → Kernel → ℕ → Info
unmark pid k s =
    if (k.info s).used && (ltb s max_procs && not (pid_of s k == pid))
    then record (k.info s) { fg = false }
    else k.info s

-- `proc_set_foreground` of a pid above 0.
pub proc_set_foreground : ℕ → Kernel → Kernel
unfolding proc_by_pid
proc_set_foreground pid k =
    let k' = mark_front (proc_by_pid (pos pid) k) k in
    record k' { tty = tty_set_foreground (some pid) k'.tty; info = unmark pid k' }

-- `memset` of a slot.
abbrev pub blank : Info
blank = record {
  used = false;
  name = [];
  kstack_base = 0;
  parent_pid = some 0;
  fg = false;
  exit_code = pos 0;
  waiting_for = pos 0;
  children = [];
  waiter_head = none;
  results = no_results;
  exited = false;
  zombie_reapable = false;
  fd_table = none;
}

abbrev pub blank_pcb : Pcb
blank_pcb = record {
  pid = 0;
  priority = 0;
  base_priority = 0;
  state = new;
  kframe = 0;
  ticks_left = 0;
  aging_ticks = 0;
}

pub allocate_slot : Kernel → Option ℕ × Kernel
unfolding first_slot
allocate_slot k = elim (first_slot max_procs 0 (λ s. not (k.info s).used)) [
  | none ↦ (none, k)
  | some s ↦ (some s, set_info s (record blank { used = true }) (set_proc s blank_pcb k))
]

-- `fd_table_destroy` of the table of a process, if it has one.
abbrev pub destroy_fds : Option ℕ → Fds → Fds
destroy_fds none f = f
destroy_fds (some t) f = fd_table_destroy t f

abbrev pub close_fds : ℕ → Kernel → Kernel
close_fds s k =
    set_info s (record (k.info s) { fd_table = none })
      (record k { fds = destroy_fds (k.info s).fd_table k.fds })

pub release_slot : ℕ → Kernel → Kernel
release_slot s k =
    let k' = close_fds s k in
    set_info s
      (record (k'.info s) {
        results = cleanup_wait_results (k'.info s).results;
        children = [];
        waiter_head = none;
        used = false;
      })
      k'

pub insert_proc : ℕ → Kernel → Kernel
insert_proc s k = record k { active = k.active ++ s ∷ [] }

-- A process that is not in the list has `next` and `prev` null, so that its removal sets the head and
-- the tail to null.
pub remove_proc : ℕ → Kernel → Kernel
remove_proc s k = record k {
  active = if ltb 0 (count s k.active) then Sched.unlink s k.active else [];
}

pub enqueue_zombie : ℕ → Kernel → Kernel
enqueue_zombie s k = record k { zombies = s ∷ k.zombies }

-- `mm_free(kstack_base)` if it is not null.
pub free_stack : ℕ → Kernel → Kernel
free_stack s k =
    let a = (k.info s).kstack_base in
    set_info s (record (k.info s) { kstack_base = 0 })
      (record k { freed = if a == 0 then k.freed else a ∷ k.freed })

-- A zombie that nobody will wait for.
abbrev pub is_reapable : Info → Bool
is_reapable i = i.zombie_reapable || elim i.parent_pid [ none ↦ true | some p ↦ false ]

pub reap : ℕ → Kernel → Kernel
unfolding free_stack release_slot
reap s k = release_slot s (free_stack s k)

-- The loop of `collect_zombies`, with the list `pending`, which it leaves as the zombies.
pub collect_from : List ℕ → List ℕ → Kernel → Kernel
unfolding reap
collect_from [] pending k = record k { zombies = pending }
collect_from (s ∷ zs) pending k =
    let done = is_reapable (k.info s) in
    collect_from zs (if done then pending else s ∷ pending) (if done then reap s k else k)

pub collect_zombies : Kernel → Kernel
unfolding collect_from
collect_zombies k = collect_from k.zombies [] k
