-- ===== src/Sem/Handles.antt =====
-- The handles of semaphores in Kernel/sys/syscalls.c: a table of KSEM_HANDLE_MAX entries, each an open
-- semaphore and the process that owns it. The handle given to the user is the index plus 1.
pub mod Owners
mod Runs
use tp2_kernel.Base.{
  ℕ, zero, suc, ◌+◌, ◌-◌, Bool, true, false, ◌&&◌, Option, none, some, List, ltb, leb, ◌==◌,
  if◌then◌else◌, update,
}
use tp2_kernel.Sem.{Table, ksem_close, ksem_open}

-- KSEM_HANDLE_MAX
abbrev pub handle_max : ℕ
handle_max = 128

-- `sem_handle_t` whose `sem` is not null.
pub record Handle : Type 0 where
  pub sem : ℕ
  pub owner_pid : ℕ

-- The semaphores and `sem_handles`.
pub record Handles : Type 0 where
  pub table : Table
  pub entries : ℕ → Option Handle

-- `ksem_close` on the semaphore at an address.
abbrev pub close_at : ℕ → Table → Bool × Table
close_at a t = let (ok, (freed, m)) = ksem_close (t.at a) in (ok, record t { at = update t.at a m })

abbrev pub is_empty : Option Handle → Bool
is_empty none = true
is_empty (some h) = false

-- The loop of `sem_handle_allocate` over the `n` entries from `i` up.
pub first_empty : ℕ → ℕ → (ℕ → Option Handle) → Option ℕ
first_empty zero i entries = none
first_empty (suc n) i entries =
    if is_empty (entries i) then some i else first_empty n (i + 1) entries

-- `sem_handle_allocate`: the handle, `none` for -1.
pub sem_handle_allocate : ℕ → ℕ → Handles → Option ℕ × Handles
unfolding first_empty
sem_handle_allocate sem owner h = elim (first_empty handle_max 0 h.entries) [
  | none ↦ (none, h)
  | some i ↦ (
    some (i + 1),
    record h { entries = update h.entries i (some (record { sem = sem; owner_pid = owner })) },
  )
]

abbrev pub sem_of : Option Handle → Option ℕ
sem_of none = none
sem_of (some h) = some h.sem

-- `handle <= 0 || handle > KSEM_HANDLE_MAX`
abbrev pub in_range : ℕ → Bool
in_range handle = ltb 0 handle && leb handle handle_max

-- The semaphore of a handle; a handle below 0 is 0 here.
pub sem_handle_peek : ℕ → Handles → Option ℕ
sem_handle_peek handle h = if in_range handle then sem_of (h.entries (handle - 1)) else none

pub sem_handle_detach : ℕ → Handles → Option ℕ × Handles
sem_handle_detach handle h =
    if in_range handle
    then (
      sem_of (h.entries (handle - 1)),
      record h { entries = update h.entries (handle - 1) none },
    )
    else (none, h)

-- An entry of the process in `sem_cleanup_process_handles`: emptied, and its semaphore closed.
abbrev pub cleanup_entry : ℕ → ℕ → Option Handle → Handles → Handles
cleanup_entry pid i none h = h
cleanup_entry pid i (some e) h =
    if e.owner_pid == pid
    then record { table = (close_at e.sem h.table).1; entries = update h.entries i none }
    else h

pub cleanup_from : ℕ → ℕ → ℕ → Handles → Handles
cleanup_from zero i pid h = h
cleanup_from (suc n) i pid h = cleanup_from n (i + 1) pid (cleanup_entry pid i (h.entries i) h)

pub sem_cleanup_process_handles : ℕ → Handles → Handles
unfolding cleanup_from
sem_cleanup_process_handles pid h = cleanup_from handle_max 0 pid h

-- `sys_sem_open` by the process with the pid `owner`; the handle, `none` for -1. What happens in
-- `ksem_open` is as there.
pub sys_sem_open : Option ℕ → List ℕ → ℕ → Option ℕ → (Table → Table) → Handles → Option ℕ × Handles
unfolding sem_handle_allocate
sys_sem_open none name init fresh meanwhile h = (none, h)
sys_sem_open (some owner) name init fresh meanwhile h =
    let (sem, t) = ksem_open name init fresh meanwhile h.table in
    let h' = record h { table = t } in
    elim sem [
      | none ↦ (none, h')
      | some a ↦
          let (handle, h'') = sem_handle_allocate a owner h' in
          elim handle [
            | none ↦ (none, record h'' { table = (close_at a h''.table).1 })
            | some n ↦ (some n, h'')
          ]
    ]

-- `sys_sem_close`: success.
pub sys_sem_close : ℕ → Handles → Bool × Handles
unfolding sem_handle_detach
sys_sem_close handle h =
    let (sem, h') = sem_handle_detach handle h in
    elim sem [
      | none ↦ (false, h')
      | some a ↦ let (ok, t) = close_at a h'.table in (ok, record h' { table = t })
    ]
