-- ===== src/Sched/Tick.antt =====
-- `schedule` of Kernel/process/sched.c, the tick of the clock.
use tp2_kernel.Base.{
  ℕ, ◌≡◌, ◌≢◌, refl, true, false, not, ◌&&◌, Option, none, some, arith, ◌==◌, update, Bool-cases,
  inl, inr,
}
use tp2_kernel.Sched.{
  Pcb, Sched, ProcState, new, ready, running, blocked, exited, q_push, set_pcb, is_running,
  is_stopped, is_slot, time_slice_ticks, retire, dispatch, dispatched, choose,
}
use tp2_kernel.Sched.Queues.{queued, queued-q_push}
use tp2_kernel.Sched.Invariant.{Queues, Inv, Queues-out}
use tp2_kernel.Sched.Steps.{set_pcb-Queues, q_push-Queues}

running-ne-ready : (s : ProcState) → is_running s ≡ true → s ≢ ready
running-ne-ready running h e = cc
running-ne-ready new h e = cc
running-ne-ready ready h e = cc
running-ne-ready blocked h e = cc
running-ne-ready exited h e = cc

is_slot-eq : (s : ℕ) (o : Option ℕ) → is_slot s o ≡ false → o ≢ some s
is_slot-eq s none h e = cc
is_slot-eq s (some t) h e = absurd (ground arith)

-- The process as `retire` queues it.
abbrev pub requeued : Pcb → Pcb
requeued p = record p {
  state = ready;
  ticks_left = time_slice_ticks;
  priority = p.base_priority;
  aging_ticks = 0;
}

-- What `retire` does: the process is queued, or it is not, and nothing that the invariant is about
-- changes.
pub data Retired (c : ℕ) (k : Sched) : Sched → Type 0 where
  queued_up : k.idle_proc ≢ some c → Retired c k (q_push c (set_pcb c (requeued (k.procs c)) k))
  halted : Retired c k (set_pcb c (record (k.procs c) { ticks_left = 0 }) k)
  left : Retired c k k

pub retire-Retired : (c : ℕ) (k : Sched) → Retired c k (retire c k)
unfolding retire
retire-Retired c k =
    elim (Bool-cases (is_running (k.procs c).state && not (is_slot c k.idle_proc))) [
      | inl e ↦ rw e (queued_up (is_slot-eq c k.idle_proc (ground arith)))
      | inr e ↦ elim (Bool-cases (is_stopped (k.procs c).state)) [
        | inl h ↦ rw (e, h) halted
        | inr h ↦ rw (e, h) left
      ]
    ]

pub Retired-Queues :
    (c : ℕ) (k r : Sched)
    → Queues k
    → (k.procs c).state ≢ ready
    → (k.procs c).kframe ≢ 0
    → Retired c k r
    → Queues r
Retired-Queues c k r v ne fr (queued_up ni) =
    q_push-Queues c (requeued (k.procs c)) k v (Queues-out k c v ne) refl fr (v.base c) (v.base c)
      ni
Retired-Queues c k r v ne fr halted =
    set_pcb-Queues c (record (k.procs c) { ticks_left = 0 }) k v (Queues-out k c v ne) ne (v.base c)
Retired-Queues c k r v ne fr left = v

-- The process that gives up the processor is in a queue afterwards or is not READY.
pub Retired-out :
    (c : ℕ) (k r : Sched)
    → (k.procs c).state ≢ ready
    → Retired c k r
    → queued c r.queue ≡ 0
    → (r.procs c).state ≢ ready
Retired-out c k r ne (queued_up ni) z =
    absurd (ground (arith, queued-q_push c c (set_pcb c (requeued (k.procs c)) k)))
Retired-out c k r ne halted z = λ e. ne (ground (arith, e))
Retired-out c k r ne left z = ne

pub Retired-idle : (c : ℕ) (k r : Sched) → Retired c k r → r.idle_proc ≡ k.idle_proc
Retired-idle c k r (queued_up ni) = unfold q_push in refl
Retired-idle c k r halted = refl
Retired-idle c k r left = refl

pub dispatched_rest :
    (n : ℕ) (k : Sched)
    → ((dispatched n k).state ≡ running)
      × ((dispatched n k).base_priority ≡ (k.procs n).base_priority)
      × ((dispatched n k).ticks_left ≡ time_slice_ticks)
      × ((dispatched n k).kframe ≡ (k.procs n).kframe)
unfolding dispatched
dispatched_rest n k = ground arith

with_current : (k : Sched) (c : Option ℕ) → Queues k → Queues (record k { current = c })
with_current k c v = record {
  placed = v.placed;
  once = v.once;
  base = v.base;
  idle_out = v.idle_out;
}

dispatched-ne-ready : (n : ℕ) (k : Sched) → (dispatched n k).state ≢ ready
dispatched-ne-ready n k = rw ((dispatched_rest n k).0) (λ e. cc)

-- The process that is dispatched stood in no queue, and runs now.
pub dispatch-Inv : (n : ℕ) (k : Sched) → Queues k → queued n k.queue ≡ 0 → Inv (dispatch n k).1
unfolding dispatch
dispatch-Inv n k v out =
    let r = dispatched_rest n k in
    record {
      queues = with_current _ (some n) (
          set_pcb-Queues n (dispatched n k) k v out (dispatched-ne-ready n k)
            (rw (r.1) (v.base n)));
      current_out = λ c e.
          let same : n ≡ c = ground arith in
          rw (← same) (
            let self : update k.procs n (dispatched n k) n ≡ dispatched n k = ground arith in
            rw self (dispatched-ne-ready n k));
    }

-- The current process stays.
pub stay-Inv :
    (c : ℕ) (k : Sched) → Queues k → (k.procs c).state ≢ ready → Inv (record k { current = some c })
stay-Inv c k v ne = record {
  queues = with_current k (some c) v;
  current_out = λ d e. let same : c ≡ d = ground arith in rw (← same) ne;
}

choose-stay :
    (c i : ℕ) (k : Sched)
    → k.idle_proc ≡ some i
    → ((k.procs i).kframe == 0) ≡ true
    → choose c (some i) k ≡ (0, record k { current = some c })
unfolding choose
choose-stay c i k e z = ground arith

-- With nothing to run but the idle process.
pub choose_idle-Inv :
    (c : ℕ) (o : Option ℕ) (k : Sched)
    → Queues k
    → (k.procs c).state ≢ ready
    → k.idle_proc ≡ o
    → Inv (choose c o k).1
unfolding choose
choose_idle-Inv c none k v ne e = stay-Inv c k v ne
choose_idle-Inv c (some i) k v ne e = elim (Bool-cases ((k.procs i).kframe == 0)) [
  | inl z ↦ rw (choose-stay c i k e z) (stay-Inv c k v ne)
  | inr f ↦ rw f (dispatch-Inv i k v (Queues-out k i v (v.idle_out i e)))
]

pub choose_pick-Inv :
    (c n : ℕ) (k : Sched)
    → Queues k
    → queued n k.queue ≡ 0
    → (k.procs n).kframe ≢ 0
    → Inv (choose c (some n) k).1
unfolding choose
choose_pick-Inv c n k v out fr =
    let f : ((k.procs n).kframe == 0) ≡ false = ground arith in rw f (dispatch-Inv n k v out)
