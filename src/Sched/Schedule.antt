-- ===== src/Sched/Schedule.antt =====
-- `schedule` of Kernel/process/sched.c as a whole.
use tp2_kernel.Base.{
  ℕ, ◌+◌, ◌≤◌, ◌<◌, ◌≡◌, ◌≢◌, refl, ap, sym, ◌∙◌, true, false, ◌&&◌, Option, none, some, arith, ltb,
  ◌==◌, update, count, Bool-cases, Option-cases, inl, inr, ◌⊎◌,
}
use tp2_kernel.Sched.{
  Pcb, Sched, ready, apply_aging, set_pcb, is_running, retire, choose, switch_from, tick, or_idle,
  schedule, pick_next,
}
use tp2_kernel.Sched.Queues.{queued, queued-update, queued-apply_aging}
use tp2_kernel.Sched.Pick.{Choice, idle, pick, Picked, pick_next-Choice}
use tp2_kernel.Sched.Invariant.{Queues, Inv, Queues-out}
use tp2_kernel.Sched.Steps.{set_pcb-Queues, apply_aging-Queues, apply_aging_keeps}
use tp2_kernel.Sched.Tick.{
  retire-Retired, Retired-Queues, Retired-out, choose_idle-Inv, choose_pick-Inv,
}

-- What `pick_next` takes from the queues leaves them in order, and stands in none of them.
pub Picked-Queues :
    (k k' : Sched) (s : ℕ)
    → Queues k
    → Picked 4 k s k'
    → Queues k' × (queued s k'.queue ≡ 0) × ((k'.procs s).kframe ≢ 0)
Picked-Queues k k' s v c =
    let fewer : (t p : ℕ) → count t (update k.queue c.level c.rest p) ≤ count t (k.queue p) = λ t p.
      elim (Bool-cases (c.level == p)) [
        | inl e ↦
            let same : c.level ≡ p = ground arith in
            rw e (omega (arith, ap (count t) c.head, ap (λ x. count t (k.queue x)) same))
        | inr e ↦ rw e (omega arith)
      ] in
    let here : 0 < count s (k.queue c.level) = ground (arith, ap (count s) c.head) in
    let one_less : count s (k.queue c.level) ≡ count s c.rest + 1 =
      ground (arith, ap (count s) c.head) in
    rw (c.after) (
      record {
        placed = λ p t h q. v.placed p t h (omega (arith, fewer t p));
        once = λ t. omega (arith, v.once t, fewer t 0, fewer t 1, fewer t 2, fewer t 3);
        base = v.base;
        idle_out = v.idle_out;
      },
      omega (arith, queued-update k.queue c.level c.rest s c.below, v.once s, one_less),
      (v.placed c.level s c.below here).framed,
    )

-- What `schedule` does from the choice of the next process on.
finish :
    (c : ℕ) (k : Sched) (r : Option ℕ × Sched)
    → Queues k
    → (queued c k.queue ≡ 0 → (k.procs c).state ≢ ready)
    → Choice 4 k r
    → Inv (choose c (or_idle r.0 r.1.idle_proc) r.1).1
finish c k r v out (idle h) =
    choose_idle-Inv c k.idle_proc k v (out (ground (arith, h 0, h 1, h 2, h 3))) refl
finish c k r v out (pick s k' p) =
    let (w, z, f) = Picked-Queues k k' s v p in choose_pick-Inv c s k' w z f

pub switch_from-Inv :
    (c : ℕ) (k : Sched)
    → Queues k
    → (k.procs c).state ≢ ready
    → (k.procs c).kframe ≢ 0
    → Inv (switch_from c k).1
unfolding switch_from
switch_from-Inv c k v ne fr =
    let r = retire c k in
    let d = retire-Retired c k in
    let q = Retired-Queues c k r v ne fr d in
    finish c (apply_aging r) (pick_next (apply_aging r)) (apply_aging-Queues r q)
      (λ z.
        rw ((apply_aging_keeps r c q).0)
          (Retired-out c k r ne d (sym (queued-apply_aging c r) ∙ z)))
      (pick_next-Choice (apply_aging r))

pub tick_rest :
    (cur_rsp : ℕ) (p : Pcb)
    → ((tick cur_rsp p).state ≡ p.state)
      × ((tick cur_rsp p).kframe ≡ cur_rsp)
      × ((tick cur_rsp p).base_priority ≡ p.base_priority)
unfolding tick
tick_rest cur_rsp p = (refl, refl, refl)

-- Nothing to switch from, or the scheduler not started: nothing changes.
pub schedule_off :
    (cur_rsp : ℕ) (k : Sched)
    → (k.current ≡ none) ⊎ (k.scheduler_enabled ≡ false)
    → schedule cur_rsp k ≡ (0, k)
unfolding schedule
schedule_off cur_rsp k (inl e) = ground arith
schedule_off cur_rsp k (inr e) = ground arith

-- Within its time slice a running process goes on.
pub schedule_more :
    (cur_rsp c : ℕ) (k : Sched)
    → k.current ≡ some c
    → k.scheduler_enabled ≡ true
    → (let p = tick cur_rsp (k.procs c) in ltb 0 p.ticks_left && is_running p.state) ≡ true
    → schedule cur_rsp k ≡ (0, set_pcb c (tick cur_rsp (k.procs c)) k)
unfolding schedule
schedule_more cur_rsp c k e on h = ground arith

-- At its end, or when it stopped, another is chosen.
pub schedule_switch :
    (cur_rsp c : ℕ) (k : Sched)
    → k.current ≡ some c
    → k.scheduler_enabled ≡ true
    → (let p = tick cur_rsp (k.procs c) in ltb 0 p.ticks_left && is_running p.state) ≡ false
    → schedule cur_rsp k ≡ switch_from c (set_pcb c (tick cur_rsp (k.procs c)) k)
unfolding schedule
schedule_switch cur_rsp c k e on h = ground arith

pub tick-Inv :
    (cur_rsp c : ℕ) (k : Sched)
    → Inv k
    → k.current ≡ some c
    → Queues (set_pcb c (tick cur_rsp (k.procs c)) k) × ((tick cur_rsp (k.procs c)).state ≢ ready)
tick-Inv cur_rsp c k v e =
    let t = tick_rest cur_rsp (k.procs c) in
    let ne = v.current_out c e in
    let ne' : (tick cur_rsp (k.procs c)).state ≢ ready = rw (t.0) ne in
    (
      set_pcb-Queues c (tick cur_rsp (k.procs c)) k v.queues (Queues-out k c v.queues ne) ne'
          (rw (t.2) (v.queues.base c)),
      ne',
    )

tick_stays :
    (c : ℕ) (p : Pcb) (k : Sched)
    → Queues (set_pcb c p k)
    → p.state ≢ ready
    → k.current ≡ some c
    → Inv (set_pcb c p k)
tick_stays c p k w ne e = record {
  queues = w;
  current_out = λ d f.
      let same : c ≡ d = ground (arith, e, f) in
      let self : (set_pcb c p k).procs c ≡ p = ground arith in rw (← same, self) ne;
}

-- A tick of the clock keeps the invariant: after it every queued process is READY and in the queue
-- of its priority, none is queued twice, and neither the current process nor the idle one is
-- queued. The frame that the tick saves must not be null.
pub schedule-Inv : (cur_rsp : ℕ) (k : Sched) → cur_rsp ≢ 0 → Inv k → Inv (schedule cur_rsp k).1
schedule-Inv cur_rsp k nz v = elim (Option-cases k.current) [
  | inl e ↦ rw (schedule_off cur_rsp k (inl e)) v
  | inr (c, e) ↦
      let p = tick cur_rsp (k.procs c) in
      let (w, ne) = tick-Inv cur_rsp c k v e in
      let self : (set_pcb c p k).procs c ≡ p = ground arith in
      elim (Bool-cases k.scheduler_enabled) [
        | inr off ↦ rw (schedule_off cur_rsp k (inr off)) v
        | inl on ↦ elim (Bool-cases (ltb 0 p.ticks_left && is_running p.state)) [
          | inl more ↦ rw (schedule_more cur_rsp c k e on more) (tick_stays c p k w ne e)
          | inr done ↦ rw (schedule_switch cur_rsp c k e on done) (
              switch_from-Inv c (set_pcb c p k) w (rw self ne)
                (rw (self, (tick_rest cur_rsp (k.procs c)).1) nz))
        ]
      ]
]
