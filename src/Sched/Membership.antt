-- ===== src/Sched/Membership.antt =====
-- `sched_remove` and `sched_enqueue` of Kernel/process/sched.c.
use tp2_kernel.Base.{
  ℕ, ◌-◌, ◌<◌, ◌≡◌, ◌≢◌, refl, ap, sym, ◌∙◌, Bool, true, false, not, Option, none, some, List, [],
  ◌∷◌, arith, ltb, ◌==◌, ==_self, if◌then◌else◌, count, update, Bool-cases, inl, inr,
}
use tp2_kernel.Sched.{
  Pcb, Sched, ready, running, is_ready, is_slot, set_pcb, unlink, q_push, q_remove, sched_remove,
  sched_enqueue, clamp_prio, time_slice_ticks,
}
use tp2_kernel.Sched.Queues.{queued, queued-update, clamp_prio_lt}
use tp2_kernel.Sched.Promotion.{count-le-queued}
use tp2_kernel.Sched.Invariant.{Queues, Inv, Queues-out, Queues-where}
use tp2_kernel.Sched.Steps.{set_pcb-Queues, q_push-Queues}

-- `unlink` takes one entry of the process out of a queue.
pub count-unlink :
    (s t : ℕ) (q : List ℕ) → count t (unlink s q) ≡ count t q - (if s == t then 1 else 0)
unfolding unlink
count-unlink s t [] = ground arith
count-unlink s t (u ∷ q) =
    let ih = count-unlink s t q in
    elim (Bool-cases (u == s)) [
      | inl e ↦ let same : u ≡ s = ground arith in rw e (rw same (ground arith))
      | inr e ↦ rw e (ground (arith, ih))
    ]

-- What a removal leaves.
pub record Left (s : ℕ) (k k' : Sched) : Type 0 where
  pub gone : queued s k'.queue ≡ 0
  pub others : (t : ℕ) → t ≢ s → queued t k'.queue ≡ queued t k.queue
  pub off : k'.current ≢ some s

-- The processor taken from a process.
abbrev relieved : ℕ → Sched → Sched
relieved s k = record k { current = if is_slot s k.current then none else k.current }

relieved_off : (s : ℕ) (k : Sched) → (relieved s k).current ≢ some s
relieved_off s k = by_current k.current
  where
    by_current : (o : Option ℕ) → (if is_slot s o then none else o) ≢ some s
    by_current none = λ e. cc
    by_current (some c) = elim (Bool-cases (s == c)) [
      | inl y ↦ λ e. absurd (ground (arith, e))
      | inr n ↦ λ e. absurd (ground (arith, e))
    ]

remove-ready :
    (s : ℕ) (k : Sched)
    → is_ready (k.procs s).state ≡ true
    → sched_remove s k ≡ q_remove s (relieved s k)
unfolding sched_remove
remove-ready s k e = rw e refl

remove-other :
    (s : ℕ) (k : Sched) → is_ready (k.procs s).state ≡ false → sched_remove s k ≡ relieved s k
unfolding sched_remove
remove-other s k e = rw e refl

q_remove-high : (s : ℕ) (k : Sched) → ltb 3 (k.procs s).priority ≡ true → q_remove s k ≡ k
unfolding q_remove
q_remove-high s k e = rw e refl

q_remove-level :
    (s : ℕ) (k : Sched)
    → ltb 3 (k.procs s).priority ≡ false
    → q_remove s k ≡ record k {
      queue = update k.queue (k.procs s).priority (unlink s (k.queue (k.procs s).priority));
    }
unfolding q_remove
q_remove-level s k e = rw e refl

-- The process taken out of the queue of its level.
unlinked-Left :
    (s : ℕ) (k : Sched)
    → Queues k
    → (k.procs s).priority < 4
    → Left s k (record (relieved s k) {
      queue = update k.queue (k.procs s).priority (unlink s (k.queue (k.procs s).priority));
    })
unlinked-Left s k v h =
    let p = (k.procs s).priority in
    record {
      gone =
          let u = queued-update k.queue p (unlink s (k.queue p)) s h in
          let c = count-unlink s s (k.queue p) in
          let le = count-le-queued k.queue s p h in
          let self = ==_self s in
          elim (Queues-where k s v) [
            | inl z ↦ ground (arith, u, c, le, z)
            | inr w ↦ ground (arith, u, c, w.1, w.2)
          ];
      others = λ t ne.
          let u = queued-update k.queue p (unlink s (k.queue p)) t h in
          let c = count-unlink s t (k.queue p) in
          let differ : (s == t) ≡ false = ground arith in
          let kept : count t (unlink s (k.queue p)) ≡ count t (k.queue p) =
            c ∙ rw differ (omega arith) in
          omega (arith, u, kept);
      off = relieved_off s k;
    }

-- Between two ticks, `sched_remove` of any process, READY, running or stopped, takes it out of the
-- ready queues and off the processor, and leaves every other process queued as often as it was.
pub sched_remove-Left : (s : ℕ) (k : Sched) → Inv k → Left s k (sched_remove s k)
sched_remove-Left s k v = elim (Bool-cases (is_ready (k.procs s).state)) [
  | inr e ↦
      let waits_not : (k.procs s).state ≢ ready = λ r. absurd (ground (arith, e, ap is_ready r)) in
      rw (remove-other s k e) (record {
        gone = Queues-out k s v.queues waits_not;
        others = λ t ne. refl;
        off = relieved_off s k;
      })
  | inl e ↦ elim (Bool-cases (ltb 3 (k.procs s).priority)) [
    | inr l ↦
        rw (remove-ready s k e ∙ q_remove-level s (relieved s k) l)
          (unlinked-Left s k v.queues (ground arith))
    | inl l ↦ rw (remove-ready s k e ∙ q_remove-high s (relieved s k) l) (record {
      gone = elim (Queues-where k s v.queues) [
        | inl z ↦ z
        | inr w ↦ let lt = w.0 in absurd (ground (arith, lt))
      ];
      others = λ t ne. refl;
      off = relieved_off s k;
    })
  ]
]

q_push_current : (s : ℕ) (k : Sched) → (q_push s k).current ≡ k.current
unfolding q_push
q_push_current s k = refl

q_push_procs : (s : ℕ) (k : Sched) → (q_push s k).procs ≡ k.procs
unfolding q_push
q_push_procs s k = refl

-- Between two ticks, a process that is in no queue, has a frame, and is neither the current nor the
-- idle process may be enqueued: `sched_enqueue`, on each of its branches, keeps the invariant of the
-- queues.
pub sched_enqueue-Inv :
    (s : ℕ) (k : Sched)
    → Inv k
    → queued s k.queue ≡ 0
    → (k.procs s).kframe ≢ 0
    → k.idle_proc ≢ some s
    → k.current ≢ some s
    → Inv (sched_enqueue s k)
unfolding sched_enqueue
sched_enqueue-Inv s k v out framed ni nc = by_current k.current k.scheduler_enabled
  where
    first : Sched
    first =
        set_pcb s (record (k.procs s) { state = running; ticks_left = time_slice_ticks })
          (record k { current = some s })

    waiting : Pcb
    waiting = record (k.procs s) {
      priority = clamp_prio (k.procs s).priority;
      state = ready;
      ticks_left = time_slice_ticks;
      aging_ticks = 0;
    }

    first-Inv : Inv first
    first-Inv = record {
      queues =
          set_pcb-Queues s (record (k.procs s) { state = running; ticks_left = time_slice_ticks })
            (record k { current = some s })
            (record {
              placed = v.queues.placed;
              once = v.queues.once;
              base = v.queues.base;
              idle_out = v.queues.idle_out;
            })
            out (λ e. cc) (v.queues.base s);
      current_out =
          λ c e. let same : s ≡ c = ground (arith, e) in rw (← same) (rw (==_self s) (λ r. cc));
    }

    not_same : (c : ℕ) → k.current ≡ some c → (s == c) ≡ false
    not_same c e = elim (Bool-cases (s == c)) [
      | inl y ↦ let same : s ≡ c = ground arith in absurd (nc (rw same e))
      | inr n ↦ n
    ]

    waiting-Inv : Inv (q_push s (set_pcb s waiting k))
    waiting-Inv = record {
      queues =
          q_push-Queues s waiting k v.queues out refl framed
            (let l = clamp_prio_lt (k.procs s).priority in omega (arith, l)) (v.queues.base s) ni;
      current_out = λ c e.
          let kept : k.current ≡ some c = sym (q_push_current s (set_pcb s waiting k)) ∙ e in
          let differ : (s == c) ≡ false = not_same c kept in
          let old : (q_push s (set_pcb s waiting k)).procs c ≡ k.procs c =
            ap (λ f. f c) (q_push_procs s (set_pcb s waiting k)) ∙ rw differ refl in
          rw old (v.current_out c kept);
    }

    by_current :
        (o : Option ℕ) (b : Bool)
        → Inv (elim o [
          | none ↦ if not b then first else q_push s (set_pcb s waiting k)
          | some c ↦ q_push s (set_pcb s waiting k)
        ])
    by_current none true = waiting-Inv
    by_current none false = first-Inv
    by_current (some c) b = waiting-Inv
