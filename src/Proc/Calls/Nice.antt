-- ===== src/Proc/Calls/Nice.antt =====
-- What `proc_nice` of Kernel/process/proc.c does to the scheduler.
use tp2_kernel.Base.{
  &&_both, ℕ, ◌≤◌, ◌≡◌, ◌≢◌, refl, ap, sym, ◌∙◌, true, false, ◌&&◌, Option, none, some, arith, ◌==◌,
  ==_self, Bool-cases, Option-cases, inl, inr, ℤ, pos, negsuc,
}
use tp2_kernel.Sched.{
  Pcb, Sched, ProcState, new, exited, ready, running, blocked, is_ready, is_running, is_slot,
  set_pcb, sched_enqueue, sched_remove,
}
use tp2_kernel.Sched.Queues.{queued}
use tp2_kernel.Sched.Invariant.{Queues-out}
use tp2_kernel.Sched.Membership.{sched_remove-Left}
use tp2_kernel.Sched.Changes.{
  Sound, is_live, sched_remove-Fewer, retouch-Sound, no_current-Sound, sched_remove_current,
  set_pcb-Sound, sched_remove-Sound, sched_enqueue-Sound,
}
use tp2_kernel.Proc.{Kernel, state_of, collect_zombies, proc_by_pid}
use tp2_kernel.Proc.Life.{is_blocked}
use tp2_kernel.Proc.Life.Scheduling.{is_blocked_iff, collect_zombies-Sound, collect_zombies_sched}
use tp2_kernel.Proc.Calls.{clamp, nice_slot, proc_nice}

-- The priority of a process that is off the processor and in no queue changed, and the process
-- enqueued.
requeue-Sound :
    (prio s : ℕ) (k : Sched)
    → Sound k
    → queued s k.queue ≡ 0
    → (k.procs s).kframe ≢ 0
    → k.idle_proc ≢ some s
    → k.current ≢ some s
    → Sound (sched_enqueue s (set_pcb s (record (k.procs s) { priority = prio }) k))
requeue-Sound prio s k v out framed ni nc =
    let p : Pcb = record (k.procs s) { priority = prio } in
    sched_enqueue-Sound s (set_pcb s p k)
      (set_pcb-Sound s p k v (record {
        out = out;
        framed = λ l. framed;
        base = v.inv.queues.base s;
        aside = inr (ni, nc);
      }))
      out (rw (==_self s) framed) ni nc

is_ready_iff : (st : ProcState) → is_ready st ≡ true → st ≡ ready
is_ready_iff ready e = refl
is_ready_iff new e = cc
is_ready_iff running e = cc
is_ready_iff blocked e = cc
is_ready_iff exited e = cc

is_running_iff : (st : ProcState) → is_running st ≡ true → st ≡ running
is_running_iff running e = refl
is_running_iff new e = cc
is_running_iff ready e = cc
is_running_iff blocked e = cc
is_running_iff exited e = cc

not_ready : (st : ProcState) → is_ready st ≡ false → st ≢ ready
not_ready st r e = let no : true ≡ false = ap is_ready (sym e) ∙ r in cc

-- The priority of a process that is not READY changed.
prioritise-Sound :
    (prio s : ℕ) (k : Sched)
    → Sound k
    → (k.procs s).state ≢ ready
    → Sound (set_pcb s (record (k.procs s) { priority = prio }) k)
prioritise-Sound prio s k v nr = set_pcb-Sound s _ k v (record {
  out = Queues-out k s v.inv.queues nr;
  framed = v.framed s;
  base = v.inv.queues.base s;
  aside = elim (Bool-cases (is_blocked (k.procs s).state)) [
    | inl b ↦
        let at = is_blocked_iff (k.procs s).state b in
        inr (λ e. v.idle_awake s e at, λ e. v.current_awake s e at)
    | inr b ↦ inl (nr, λ e. let no : true ≡ false = ap is_blocked (sym e) ∙ b in cc)
  ];
})

-- A process taken off its queue or off the processor, with another priority, and enqueued.
renice-Sound :
    (prio s : ℕ) (k : Sched)
    → Sound k
    → (k.procs s).kframe ≢ 0
    → k.idle_proc ≢ some s
    → let k' = sched_remove s k in
      Sound (sched_enqueue s (set_pcb s (record (k'.procs s) { priority = prio }) k'))
renice-Sound prio s k v framed ni =
    let f = sched_remove-Fewer s k in
    let left = sched_remove-Left s k v.inv in
    requeue-Sound prio s (sched_remove s k) (sched_remove-Sound s k v) left.gone
      (λ z. framed (ap (λ p. (p s).kframe) (sym f.procs) ∙ z)) (λ e. ni (sym f.idle ∙ e)) left.off

-- A running process made READY: it is on the processor no more when it is taken off the queues.
yielded-Sound :
    (s : ℕ) (k : Sched)
    → Sound k
    → (k.procs s).state ≡ running
    → k.idle_proc ≢ some s
    → Sound (set_pcb s (record (k.procs s) { state = ready }) (record k { current = none }))
yielded-Sound s k v at ni =
    set_pcb-Sound s _ (record k { current = none }) (no_current-Sound k v)
      (record {
        out = Queues-out k s v.inv.queues (λ e. let no : running ≡ ready = sym at ∙ e in cc);
        framed = λ l. v.framed s (ap is_live at);
        base = v.inv.queues.base s;
        aside = inr (ni, λ e. cc);
      })

is_slot-some : (s : ℕ) (o : Option ℕ) → is_slot s o ≡ true → o ≡ some s
is_slot-some s none e = cc
is_slot-some s (some t) e = let same : s ≡ t = ground arith in ap some (sym same)

nice_slot-Sound :
    (prio s : ℕ) (k : Kernel)
    → prio ≤ 3
    → (k.sched.current ≡ some s → k.sched.idle_proc ≢ some s)
    → Sound k.sched
    → Sound (nice_slot prio s k).sched
unfolding nice_slot
nice_slot-Sound prio s k h busy v = elim (Bool-cases (is_ready (state_of s k))) [
  | inl r ↦
      let at = is_ready_iff (state_of s k) r in
      rw (r, nice_slot)
        (renice-Sound prio s k₁ v₁ (rw (==_self s) (v.framed s (ap is_live at)))
          (λ e. v.inv.queues.idle_out s e at))
  | inr r ↦ elim (Bool-cases (is_running (state_of s k) && is_slot s k.sched.current)) [
    | inl w ↦
        let both = &&_both (is_running (state_of s k)) (is_slot s k.sched.current) w in
        let at = is_running_iff (state_of s k) both.0 in
        let ni = busy (is_slot-some s k.sched.current both.1) in
        let at₁ : (k₁.procs s).state ≡ running = rw (==_self s) at in
        rw
          (
            r,
            nice_slot,
            w,
            sched_remove_current s (set_pcb s (record (k₁.procs s) { state = ready }) k₁) both.1,
          )
          (renice-Sound prio s
            (set_pcb s (record (k₁.procs s) { state = ready }) (record k₁ { current = none }))
            (yielded-Sound s k₁ v₁ at₁ ni) (rw (==_self s) (v.framed s (ap is_live at))) ni)
    | inr w ↦
        rw (r, nice_slot, w)
          (prioritise-Sound prio s k₁ v₁ (rw (==_self s) (not_ready (state_of s k) r)))
  ]
]
  where
    k₁ : Sched
    k₁ = set_pcb s (record (k.sched.procs s) { base_priority = prio; aging_ticks = 0 }) k.sched

    v₁ : Sound k₁
    v₁ = retouch-Sound s _ k.sched v refl refl refl h

pub clamp-le : (z : ℤ) → clamp z ≤ 3
clamp-le (pos n) = ground arith
clamp-le (negsuc n) = omega arith

-- The idle process calls no operation.
pub proc_nice-Sound :
    (pid new_prio : ℤ) (k : Kernel)
    → ((s : ℕ) → k.sched.current ≡ some s → k.sched.idle_proc ≢ some s)
    → Sound k.sched
    → Sound (proc_nice pid new_prio k).sched
unfolding proc_nice
proc_nice-Sound pid new_prio k busy v =
    let k' = collect_zombies k in
    let v' = collect_zombies-Sound k v in
    let busy' : (s : ℕ) → k'.sched.current ≡ some s → k'.sched.idle_proc ≢ some s =
      rw (collect_zombies_sched k) busy in
    elim (Option-cases (proc_by_pid pid k')) [
      | inl e ↦ rw (e, proc_nice) v'
      | inr (s, e) ↦ elim (Bool-cases ((k'.sched.procs s).priority == clamp new_prio)) [
        | inl q ↦ rw (e, proc_nice, q) v'
        | inr q ↦
            rw (e, proc_nice, q)
              (nice_slot-Sound (clamp new_prio) s k' (clamp-le new_prio) (busy' s) v')
      ]
    ]
