-- ===== src/Proc/Create.antt =====
-- Kernel/process/proc.c: `proc_create`, with the stack that it prepares, and `proc_snapshot`.
pub mod Scheduling
use tp2_kernel.Base.{
  ℕ, zero, suc, ◌+◌, ◌*◌, ◌-◌, ◌/◌, ◌^◌, Bool, true, false, Option, none, some, List, [], ◌∷◌, ltb,
  ◌==◌, if◌then◌else◌, take, ℤ, pos, add64, sub64,
}
use tp2_kernel.Sched.{Pcb, ProcState, new, time_slice_ticks, sched_enqueue}
use tp2_kernel.WaitResults.{no_results}
use tp2_kernel.Tty.{tty_set_foreground}
use tp2_kernel.Fd.{Fds, fd_table_create, fd_table_clone, fd_table_attach_std}
use tp2_kernel.Proc.{
  Info, Kernel, set_info, set_proc, pid_of, max_procs, collect_zombies, allocate_slot, release_slot,
  free_stack, insert_proc,
}
use tp2_kernel.Proc.Life.{link_child}
use tp2_kernel.Proc.Calls.{clamp}

-- The first `max_len - 1` bytes; a name ends where its list ends.
pub copy_name : ℕ → List ℕ → List ℕ
copy_name max_len src = take (max_len - 1) src

-- sizeof(proc->name)
abbrev pub name_size : ℕ
name_size = 32

-- KSTACK_SIZE
abbrev pub kstack_size : ℕ
kstack_size = 16384

-- The top of the stack, aligned down to 16 bytes.
abbrev pub stack_top : ℕ → ℕ
stack_top base = add64 base kstack_size / 16 * 16

-- `regs_t`: the registers that `setup_stack` does not leave 0. `rip` is the address of `trampoline`,
-- `rdi` that of the process.
pub record Regs : Type 0 where
  pub rip : ℕ
  pub cs : ℕ
  pub rflags : ℕ
  pub rsp : ℕ
  pub ss : ℕ
  pub rdi : ℕ
  pub rbp : ℕ

-- sizeof(regs_t)
abbrev pub regs_size : ℕ
regs_size = 160

-- `setup_stack`: the address of the frame, and the frame.
pub setup_stack : ℕ → ℕ → ℕ → ℕ × Regs
setup_stack trampoline proc base = (
  sub64 (stack_top base) regs_size,
  record {
    rip = trampoline;
    cs = 0x08;
    rflags = 0x202;
    rsp = sub64 (stack_top base) 8;
    ss = 0;
    rdi = proc;
    rbp = sub64 (stack_top base) 8;
  },
)

-- `next_pid++` on an `int`, back to 1 past its maximum.
pub after_pid : ℕ → ℕ
after_pid pid = if pid + 1 == 2 ^ 31 then 1 else pid + 1

abbrev pub new_pcb : ℕ → ℕ → Pcb
new_pcb pid prio = record {
  pid = pid;
  priority = prio;
  base_priority = prio;
  state = new;
  kframe = 0;
  ticks_left = time_slice_ticks;
  aging_ticks = 0;
}

-- The process in a new slot, without its stack and its table of descriptors.
abbrev pub new_info : List ℕ → Bool → Option ℕ → Info
new_info name fg parent = record {
  used = true;
  name = name;
  kstack_base = 0;
  parent_pid = parent;
  fg = fg;
  exit_code = pos 0;
  waiting_for = pos 0;
  children = [];
  waiter_head = none;
  results = no_results;
  exited = false;
  zombie_reapable = false;
  fd_table = none;
}

abbrev pub parent_pid_of : Option ℕ → Kernel → Option ℕ
parent_pid_of none k = none
parent_pid_of (some p) k = some (pid_of p k)

-- The slot as the code fills it, up to `mm_malloc` of the stack.
pub fill : ℕ → List ℕ → ℕ → Bool → Kernel → Kernel
unfolding copy_name after_pid
fill s name prio fg k =
    let parent = parent_pid_of k.sched.current k in
    let k' = record k { next_pid = after_pid k.next_pid } in
    set_info s (new_info (copy_name name_size name) fg parent)
      (set_proc s (new_pcb k.next_pid prio) k')

-- The descriptors of the new process: those of its parent, or the standard ones.
abbrev pub give_fds : ℕ → Option ℕ → Kernel → Fds → Fds
give_fds t none k f = fd_table_attach_std t f
give_fds t (some p) k f = elim (k.info p).fd_table [
  | none ↦ fd_table_attach_std t f
  | some src ↦ fd_table_clone t (some src) f
]

abbrev pub link_parent : Option ℕ → ℕ → Kernel → Kernel
link_parent none s k = k
link_parent (some p) s k = link_child p s k

-- `proc_create` once the stack and the table of descriptors are there.
pub admit : ℕ → ℕ → Bool → Kernel → ℕ × Kernel
admit s t fg k =
    let k₁ = record k { fds = give_fds t k.sched.current k k.fds } in
    let k₂ = insert_proc s (link_parent k.sched.current s k₁) in
    let k₃ = record k₂ { sched = sched_enqueue s k₂.sched } in
    let pid = pid_of s k₃ in
    (pid, record k₃ { tty = if fg then tty_set_foreground (some pid) k₃.tty else k₃.tty })

-- The slot with the stack at `base`, and its frame.
abbrev pub give_stack : ℕ → ℕ → ℕ → Kernel → Kernel
give_stack trampoline s base k =
    set_info s (record (k.info s) { kstack_base = base })
      (set_proc s (record (k.sched.procs s) { kframe = (setup_stack trampoline s base).0 }) k)

-- `proc_create` in a free slot.
pub create_in : ℕ → Option ℕ → Option ℕ → Bool → ℕ → Kernel → Option ℕ × Kernel
unfolding admit setup_stack
create_in trampoline none table fg s k = (none, release_slot s k)
create_in trampoline (some base) table fg s k =
    let k' = give_stack trampoline s base k in
    let (t, f) = fd_table_create table k'.fds in
    let k'' = record k' { fds = f } in
    elim t [
      | none ↦ (none, release_slot s (free_stack s k''))
      | some a ↦
          let (pid, made) =
            admit s a fg (set_info s (record (k''.info s) { fd_table = some a }) k'') in
          (some pid, made)
    ]

-- `proc_create` with an entry and a name, given what `mm_malloc` grants for the stack and for the
-- table of descriptors: the pid, `none` for -1. `fd_table_clone` never fails here, since both tables
-- exist.
pub proc_create : ℕ → Option ℕ → Option ℕ → ℤ → Bool → List ℕ → Kernel → Option ℕ × Kernel
unfolding allocate_slot fill create_in
proc_create trampoline stack table prio fg name k =
    let (slot, k') = allocate_slot (collect_zombies k) in
    elim slot [
      | none ↦ (none, k')
      | some s ↦ create_in trampoline stack table fg s (fill s name (clamp prio) fg k')
    ]

-- `proc_info_t`
pub record ProcInfo : Type 0 where
  pub pid : ℕ
  pub priority : ℕ
  pub state : ProcState
  pub ticks_left : ℕ
  pub fg : Bool
  pub name : List ℕ
  pub sp : ℕ
  pub bp : ℕ

-- One entry of `proc_snapshot`; `frames` reads rsp and rbp out of the frame at an address.
pub snapshot_of : (ℕ → ℕ × ℕ) → ℕ → Kernel → ProcInfo
unfolding copy_name
snapshot_of frames s k =
    let p = k.sched.procs s in
    let (sp, bp) : ℕ × ℕ = if p.kframe == 0 then (0, 0) else frames p.kframe in
    record {
      pid = p.pid;
      priority = p.priority;
      state = p.state;
      ticks_left = p.ticks_left;
      fg = (k.info s).fg;
      name = copy_name name_size (k.info s).name;
      sp = sp;
      bp = bp;
    }

-- The loop over the `n` slots from `s` up, with room for `room` entries.
pub snapshot_from : (ℕ → ℕ × ℕ) → ℕ → ℕ → ℕ → Kernel → List ProcInfo
unfolding snapshot_of
snapshot_from frames zero s room k = []
snapshot_from frames (suc n) s zero k = []
snapshot_from frames (suc n) s (suc room) k =
    let shown = (k.info s).used in
    let rest = snapshot_from frames n (s + 1) (if shown then room else suc room) k in
    if shown then snapshot_of frames s k ∷ rest else rest

-- `proc_snapshot` into a buffer of `max_items` entries.
pub proc_snapshot : (ℕ → ℕ × ℕ) → ℕ → Kernel → List ProcInfo × Kernel
unfolding snapshot_from
proc_snapshot frames max_items k =
    if max_items == 0
    then ([], k)
    else (let k' = collect_zombies k in (snapshot_from frames max_procs 0 max_items k', k'))
