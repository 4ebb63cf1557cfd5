-- ===== src/Sched.antt =====
-- Kernel/process/sched.c and Kernel/include/sched.h: the priority scheduler with aging.
-- A `pcb_t *` is the number of its slot in the process table; `queue_next`, `ready_head` and
-- `ready_tail` are one list of slots for each priority, first in first out.
mod Runs
pub mod Queues
pub mod Liveness
pub mod Schedule
pub mod Tick
pub mod Membership
pub mod Changes
pub mod Steps
pub mod Invariant
pub mod Promotion
pub mod AgingPass
pub mod Pick
use tp2_kernel.Base.{
  ℕ, zero, suc, ◌+◌, ◌-◌, Bool, true, false, not, ◌&&◌, Option, none, some, List, [], ◌∷◌, ◌++◌,
  ltb, leb, ◌==◌, if◌then◌else◌, update,
}

-- `proc_state_t`
pub data ProcState : Type 0 where
  new ready running blocked exited : ProcState

-- The fields of `pcb_t` that the scheduler reads. `kframe` 0 is the null pointer. Priorities are
-- never negative, since every write of one is clamped.
pub record Pcb : Type 0 where
  pub pid : ℕ
  pub priority : ℕ
  pub base_priority : ℕ
  pub state : ProcState
  pub kframe : ℕ
  pub ticks_left : ℕ
  pub aging_ticks : ℕ

-- The process table and the static variables of sched.c.
pub record Sched : Type 0 where
  pub procs : ℕ → Pcb
  pub queue : ℕ → List ℕ
  pub scheduler_enabled : Bool
  pub current : Option ℕ
  pub idle_proc : Option ℕ

abbrev pub max_prios : ℕ
max_prios = 4

abbrev pub highest_prio : ℕ
highest_prio = 3

abbrev pub time_slice_ticks : ℕ
time_slice_ticks = 5

abbrev pub aging_threshold : ℕ
aging_threshold = 10

abbrev pub is_ready : ProcState → Bool
is_ready ready = true
is_ready _ = false

abbrev pub is_running : ProcState → Bool
is_running running = true
is_running _ = false

-- `state == BLOCKED || state == EXITED`
abbrev pub is_stopped : ProcState → Bool
is_stopped blocked = true
is_stopped exited = true
is_stopped _ = false

-- Two pointers, of which the first is not null, are equal.
abbrev pub is_slot : ℕ → Option ℕ → Bool
is_slot s none = false
is_slot s (some t) = s == t

abbrev pub set_pcb : ℕ → Pcb → Sched → Sched
set_pcb s p k = record k { procs = update k.procs s p }

abbrev pub clamp_prio : ℕ → ℕ
clamp_prio p = if ltb highest_prio p then highest_prio else p

pub q_push : ℕ → Sched → Sched
q_push s k =
    let prio = clamp_prio (k.procs s).priority in
    record k { queue = update k.queue prio (k.queue prio ++ s ∷ []) }

pub q_pop : ℕ → Sched → Option ℕ × Sched
q_pop prio k = elim (k.queue prio) [
  | [] ↦ (none, k)
  | s ∷ rest ↦ (some s, record k { queue = update k.queue prio rest })
]

-- The first occurrence of a slot taken out of a queue.
unfoldable pub unlink : ℕ → List ℕ → List ℕ
unlink s [] = []
unlink s (t ∷ q) = if t == s then q else t ∷ unlink s q

pub q_remove : ℕ → Sched → Sched
unfolding unlink
q_remove s k =
    let prio = (k.procs s).priority in
    if ltb highest_prio prio
    then k
    else record k { queue = update k.queue prio (unlink s (k.queue prio)) }

-- The loop of `pick_next` over the `n` levels below `n`, from the highest down.
pub pick_below : ℕ → Sched → Option ℕ × Sched
unfolding q_pop
pick_below zero k = (none, k)
pick_below (suc n) k = elim (k.queue n) [ [] ↦ pick_below n k | _ ↦ q_pop n k ]

pub pick_next : Sched → Option ℕ × Sched
unfolding pick_below
pick_next k = pick_below max_prios k

-- A waiting process one tick later, before it is tested for promotion.
pub waited : Pcb → Pcb
waited p = record p {
  aging_ticks =
      if ltb aging_threshold (p.aging_ticks + 1) then aging_threshold else p.aging_ticks + 1;
}

pub promotes : Pcb → Bool
promotes p = ltb p.priority highest_prio && leb aging_threshold p.aging_ticks

-- What one pass of `apply_aging` makes of a queued process.
pub aged : Pcb → Pcb
unfolding waited promotes
aged p =
    if promotes (waited p)
    then record (waited p) { priority = p.priority + 1; aging_ticks = 0 }
    else waited p

-- The loop over one queue: the processes that stay in it and those that leave it.
pub record Aging : Type 0 where
  pub table : ℕ → Pcb
  pub kept : List ℕ
  pub promoted : List ℕ

pub age_queue : List ℕ → (ℕ → Pcb) → Aging
age_queue [] procs = record { table = procs; kept = []; promoted = [] }
age_queue (s ∷ q) procs =
    let rest = age_queue q (update procs s (aged (procs s))) in
    if promotes (waited (procs s))
    then record rest { promoted = s ∷ rest.promoted }
    else record rest { kept = s ∷ rest.kept }

-- The loop over the levels, `n` of them from `prio` up; `promoted` grows at its end.
pub age_levels : ℕ → ℕ → Sched → List ℕ → Sched × List ℕ
unfolding age_queue
age_levels zero prio k promoted = (k, promoted)
age_levels (suc n) prio k promoted =
    let a = age_queue (k.queue prio) k.procs in
    age_levels n (prio + 1) (record k { procs = a.table; queue = update k.queue prio a.kept })
      (promoted ++ a.promoted)

-- `q_push` of each, in order.
pub push_all : List ℕ → Sched → Sched
unfolding q_push
push_all [] k = k
push_all (s ∷ q) k = push_all q (q_push s k)

pub apply_aging : Sched → Sched
unfolding age_levels push_all
apply_aging k = let (k', promoted) = age_levels max_prios 0 k [] in push_all promoted k'

pub sched_enqueue : ℕ → Sched → Sched
unfolding q_push
sched_enqueue s k =
    let first =
      set_pcb s (record (k.procs s) { state = running; ticks_left = time_slice_ticks })
        (record k { current = some s }) in
    let queued = q_push s (
      set_pcb s
        (record (k.procs s) {
          priority = clamp_prio (k.procs s).priority;
          state = ready;
          ticks_left = time_slice_ticks;
          aging_ticks = 0;
        })
        k) in
    elim k.current [ none ↦ if not k.scheduler_enabled then first else queued | some c ↦ queued ]

pub sched_remove : ℕ → Sched → Sched
unfolding q_remove
sched_remove s k =
    let k' = record k { current = if is_slot s k.current then none else k.current } in
    if is_ready (k.procs s).state then q_remove s k' else k'

-- The part of `schedule` that puts the process that gives up the processor in its place.
pub retire : ℕ → Sched → Sched
unfolding q_push
retire prev k =
    let p = k.procs prev in
    if is_running p.state && not (is_slot prev k.idle_proc)
    then q_push prev (
        set_pcb prev
          (record p {
            state = ready;
            ticks_left = time_slice_ticks;
            priority = p.base_priority;
            aging_ticks = 0;
          })
          k)
    else if is_stopped p.state
    then set_pcb prev (record p { ticks_left = 0 }) k
    else k

-- The process that is given the processor, as `schedule` leaves it.
pub dispatched : ℕ → Sched → Pcb
dispatched next k =
    let p = record (k.procs next) { state = running; ticks_left = time_slice_ticks } in
    if is_slot next k.idle_proc then p else record p { priority = p.base_priority; aging_ticks = 0 }

pub dispatch : ℕ → Sched → ℕ × Sched
unfolding dispatched
dispatch next k =
    ((k.procs next).kframe, record (set_pcb next (dispatched next k) k) { current = some next })

-- The checks between `pick_next` and the dispatch, for the process that was picked.
pub choose : ℕ → Option ℕ → Sched → ℕ × Sched
unfolding dispatch
choose prev none k = (0, record k { current = some prev })
choose prev (some next) k =
    if (k.procs next).kframe == 0
    then elim k.idle_proc [
      | none ↦ (0, record k { current = some prev })
      | some i ↦
          if not (i == next) && not ((k.procs i).kframe == 0)
          then dispatch i k
          else (0, record k { current = some prev })
    ]
    else dispatch next k

-- `next == NULL` falls back to the idle process.
abbrev pub or_idle : Option ℕ → Option ℕ → Option ℕ
or_idle none idle = idle
or_idle (some s) idle = some s

-- `schedule` from `pcb_t *prev = current` on.
pub switch_from : ℕ → Sched → ℕ × Sched
unfolding retire apply_aging pick_next choose
switch_from prev k =
    let (next, k') = pick_next (apply_aging (retire prev k)) in
    choose prev (or_idle next k'.idle_proc) k'

-- The frame saved and the tick counted, for the current process.
pub tick : ℕ → Pcb → Pcb
tick cur_rsp p = record p { kframe = cur_rsp; ticks_left = p.ticks_left - 1 }

-- `schedule(cur_rsp)` on every tick: the frame to switch to, 0 for none.
pub schedule : ℕ → Sched → ℕ × Sched
schedule cur_rsp k = elim k.current [
  | none ↦ (0, k)
  | some c ↦
      let p = tick cur_rsp (k.procs c) in
      let k' = set_pcb c p k in
      if not k.scheduler_enabled
      then (0, k)
      else if ltb 0 p.ticks_left && is_running p.state
      then (0, k')
      else switch_from c k'
]
