-- ===== src/Sched/Liveness.antt =====
-- Waiting processes under `schedule` and `apply_aging` (Kernel/process/sched.c).
use tp2_kernel.Base.{
  ℕ, zero, suc, ◌+◌, ◌<◌, ◌≡◌, ◌≢◌, refl, ap, ◌∙◌, false, ◌&&◌, Option, none, some, ◌∷◌, arith, ltb,
  ◌==◌, count, Bool-cases, Option-cases, inl, inr, ◌⊎◌,
}
use tp2_kernel.Sched.{
  Pcb, Sched, ready, apply_aging, set_pcb, is_running, promotes, waited, aged, retire, dispatch,
  choose, or_idle, schedule, switch_from, tick, pick_next,
}
use tp2_kernel.Sched.Queues.{queued, queued-update, queued-apply_aging, queued-q_push}
use tp2_kernel.Sched.Pick.{Choice, idle, pick, pick_next-Choice}
use tp2_kernel.Sched.Promotion.{apply_aging_waiting}
use tp2_kernel.Sched.Invariant.{Queues, Inv, Queues-where}
use tp2_kernel.Sched.Steps.{apply_aging-Queues}
use tp2_kernel.Sched.Tick.{Retired, queued_up, halted, left, retire-Retired, Retired-Queues}
use tp2_kernel.Sched.Schedule.{
  Picked-Queues, schedule_off, schedule_more, schedule_switch, tick-Inv, tick_rest,
}

-- `t` waits in a queue or has the processor.
abbrev pub Alive : ℕ → Sched → Type 0
Alive t k = (queued t k.queue ≡ 1) ⊎ (k.current ≡ some t)

choose_queue : (c : ℕ) (o : Option ℕ) (k : Sched) → (choose c o k).1.queue ≡ k.queue
unfolding choose dispatch
choose_queue c none k = refl
choose_queue c (some n) k = ground arith

choose_picked :
    (c n : ℕ) (k : Sched) → (k.procs n).kframe ≢ 0 → (choose c (some n) k).1.current ≡ some n
unfolding choose dispatch
choose_picked c n k f = ground arith

choose-Alive :
    (c t : ℕ) (k : Sched) (r : Option ℕ × Sched)
    → Queues k
    → queued t k.queue ≡ 1
    → Choice 4 k r
    → Alive t (choose c (or_idle r.0 r.1.idle_proc) r.1).1
choose-Alive c t k r v q (idle h) = absurd (ground (arith, h 0, h 1, h 2, h 3))
choose-Alive c t k r v q (pick s k' p) =
    let (w, z, f) = Picked-Queues k k' s v p in
    elim (Bool-cases (s == t)) [
      | inl e ↦ let same : s ≡ t = ground arith in inr (rw (← same) (choose_picked c s k' f))
      | inr e ↦
          let still : queued t k'.queue ≡ 1 =
            rw (p.after) (
              omega (arith, queued-update k.queue p.level p.rest t p.below, other t e p.head, q)) in
          inl (ap (queued t) (choose_queue c (some s) k') ∙ still)
    ]
  where
    other :
        (t : ℕ)
        → (s == t) ≡ false
        → k.queue p.level ≡ s ∷ p.rest
        → count t (k.queue p.level) ≡ count t p.rest
    other t e h = ground (arith, ap (count t) h)

Retired-queued :
    (c t : ℕ) (k r : Sched) → Queues r → queued t k.queue ≡ 1 → Retired c k r → queued t r.queue ≡ 1
Retired-queued c t k r v q (queued_up ni) =
    omega (arith, queued-q_push c t (set_pcb c _ k), v.once t, q)
Retired-queued c t k r v q halted = q
Retired-queued c t k r v q left = q

switch_from-Alive :
    (c t : ℕ) (k : Sched)
    → Queues k
    → (k.procs c).state ≢ ready
    → (k.procs c).kframe ≢ 0
    → queued t k.queue ≡ 1
    → Alive t (switch_from c k).1
unfolding switch_from
switch_from-Alive c t k v ne fr q =
    let r = retire c k in
    let d = retire-Retired c k in
    let w = Retired-Queues c k r v ne fr d in
    choose-Alive c t (apply_aging r) (pick_next (apply_aging r)) (apply_aging-Queues r w)
      (queued-apply_aging t r ∙ Retired-queued c t k r w q d) (pick_next-Choice (apply_aging r))

-- A process that waits in a queue still waits in one after a tick, or has got the processor.
pub schedule-Alive :
    (cur_rsp t : ℕ) (k : Sched)
    → cur_rsp ≢ 0
    → Inv k
    → queued t k.queue ≡ 1
    → Alive t (schedule cur_rsp k).1
schedule-Alive cur_rsp t k nz v q = elim (Option-cases k.current) [
  | inl e ↦ rw (schedule_off cur_rsp k (inl e)) (inl q)
  | inr (c, e) ↦
      let p = tick cur_rsp (k.procs c) in
      let (w, ne) = tick-Inv cur_rsp c k v e in
      let self : (set_pcb c p k).procs c ≡ p = ground arith in
      elim (Bool-cases k.scheduler_enabled) [
        | inr off ↦ rw (schedule_off cur_rsp k (inr off)) (inl q)
        | inl on ↦ elim (Bool-cases (ltb 0 p.ticks_left && is_running p.state)) [
          | inl more ↦ rw (schedule_more cur_rsp c k e on more) (inl q)
          | inr done ↦ rw (schedule_switch cur_rsp c k e on done) (
              switch_from-Alive c t (set_pcb c p k) w (rw self ne)
                (rw (self, (tick_rest cur_rsp (k.procs c)).1) nz) q)
        ]
      ]
]

-- `n` passes of `apply_aging`.
pub passes : ℕ → Sched → Sched
passes zero k = k
passes (suc n) k = passes n (apply_aging k)

aged_early :
    (b : Pcb)
    → b.aging_ticks + 1 < 10
    → ((aged b).priority ≡ b.priority) × ((aged b).aging_ticks ≡ b.aging_ticks + 1)
unfolding aged waited promotes
aged_early b h = ground arith

aged_due : (b : Pcb) → b.aging_ticks + 1 ≡ 10 → b.priority < 3 → (aged b).priority ≡ b.priority + 1
unfolding aged waited promotes
aged_due b h l = ground arith

-- A process that waits below the highest priority is promoted to the next level by the pass that
-- brings its count of aging ticks to 10, and by none before.
pub passes_promote :
    (n t : ℕ) (k : Sched)
    → Queues k
    → queued t k.queue ≡ 1
    → (k.procs t).priority < 3
    → (k.procs t).aging_ticks + suc n ≡ 10
    → let b = (passes (suc n) k).procs t in
      (b.priority ≡ (k.procs t).priority + 1)
      × (count t ((passes (suc n) k).queue b.priority) ≡ 1)
      × (((passes n k).procs t).priority ≡ (k.procs t).priority)
unfolding passes
passes_promote zero t k v q l e = elim (Queues-where k t v) [
  | inl out ↦ absurd (omega arith)
  | inr (hi, one, all, w) ↦
      let r = apply_aging_waiting k t hi one all in
      let due = aged_due (k.procs t) (omega arith) l in
      let prio : ((apply_aging k).procs t).priority ≡ (k.procs t).priority + 1 =
        ap (λ (x : Pcb). x.priority) r.0 ∙ due in
      let there = r.1 ((k.procs t).priority + 1) (omega arith) in
      (prio, rw prio (ground (arith, there, due)), refl)
]
passes_promote (suc n) t k v q l e = elim (Queues-where k t v) [
  | inl out ↦ absurd (omega arith)
  | inr (hi, one, all, w) ↦
      let r = apply_aging_waiting k t hi one all in
      let early = aged_early (k.procs t) (omega arith) in
      let prio : ((apply_aging k).procs t).priority ≡ (k.procs t).priority =
        ap (λ (x : Pcb). x.priority) r.0 ∙ early.0 in
      let ticks : ((apply_aging k).procs t).aging_ticks ≡ (k.procs t).aging_ticks + 1 =
        ap (λ (x : Pcb). x.aging_ticks) r.0 ∙ early.1 in
      let rest =
        passes_promote n t (apply_aging k) (apply_aging-Queues k v) (queued-apply_aging t k ∙ q)
          (omega arith) (omega arith) in
      (rest.0 ∙ ap (λ x. x + 1) prio, rest.1, rest.2 ∙ prio)
]
