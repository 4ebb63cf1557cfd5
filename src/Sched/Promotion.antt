-- ===== src/Sched/Promotion.antt =====
-- `apply_aging` of Kernel/process/sched.c as a whole: where each process stands afterwards.
use tp2_kernel.Base.{
  ℕ, zero, suc, ◌+◌, ◌≤◌, ◌<◌, ◌≡◌, ◌≢◌, refl, ap, sym, ◌∙◌, true, List, [], ◌∷◌, ◌++◌, arith, ◌==◌,
  if◌then◌else◌, update, count, count-append, Bool-cases, inl, inr,
}
use tp2_kernel.Sched.{
  Pcb, Sched, promotes, waited, aged, age_levels, push_all, q_push, apply_aging, max_prios,
  clamp_prio,
}
use tp2_kernel.Sched.Queues.{queued, queued-update, queued-age_levels}
use tp2_kernel.Sched.AgingPass.{update_other, age_levels-Untouched, age_levels-Passed}

-- The queues of two levels hold no more than all four.
pub count-pair-le :
    (q : ℕ → List ℕ) (t p l : ℕ)
    → p < 4
    → l < 4
    → p ≢ l
    → count t (q p) + count t (q l) ≤ queued t q
count-pair-le q t p l hp hl ne =
    let one = queued-update q p [] t hp in
    let two = queued-update (update q p []) l [] t hl in
    let other = ap (count t) (update_other q p l [] (ground arith)) in
    omega (arith, one, two, other)

pub count-le-queued : (q : ℕ → List ℕ) (t p : ℕ) → p < 4 → count t (q p) ≤ queued t q
count-le-queued q t p h = omega (arith, queued-update q p [] t h)

-- `push_all` changes the queues only, each process at the end of the queue of its priority.
pub record Pushed (q : List ℕ) (k : Sched) (t : ℕ) : Type 0 where
  pub pcb_eq : (push_all q k).procs t ≡ k.procs t
  pub enabled_eq : (push_all q k).scheduler_enabled ≡ k.scheduler_enabled
  pub current_eq : (push_all q k).current ≡ k.current
  pub idle_eq : (push_all q k).idle_proc ≡ k.idle_proc
  pub queue_eq :
      (p : ℕ)
      → count t ((push_all q k).queue p)
        ≡ count t (k.queue p) + (if clamp_prio (k.procs t).priority == p then count t q else 0)

count-update_append :
    (q : ℕ → List ℕ) (c p s t : ℕ)
    → count t (update q c (q c ++ s ∷ []) p)
      ≡ count t (q p) + (if c == p then (if s == t then 1 else 0) else 0)
count-update_append q c p s t = elim (Bool-cases (c == p)) [
  | inl e ↦
      let same : c ≡ p = ground arith in rw (e, same) (omega (arith, count-append t (q p) (s ∷ [])))
  | inr e ↦ rw e (omega arith)
]

pub count-q_push :
    (s t p : ℕ) (k : Sched)
    → count t ((q_push s k).queue p)
      ≡ count t (k.queue p)
        + (if clamp_prio (k.procs t).priority == p then (if s == t then 1 else 0) else 0)
unfolding q_push
count-q_push s t p k =
    let c = clamp_prio (k.procs s).priority in
    let pushed = count-update_append k.queue c p s t in
    elim (Bool-cases (s == t)) [
      | inl e ↦
          let same : s ≡ t = ground arith in
          pushed
          ∙ ap
              (λ x.
                count t (k.queue p)
                + (if clamp_prio (k.procs x).priority == p then (if s == t then 1 else 0) else 0))
              same
      | inr e ↦ pushed ∙ rw e (ground arith)
    ]

pub push_all-Pushed : (q : List ℕ) (k : Sched) (t : ℕ) → Pushed q k t
unfolding push_all
push_all-Pushed [] k t = record {
  pcb_eq = refl;
  enabled_eq = refl;
  current_eq = refl;
  idle_eq = refl;
  queue_eq = λ p. ground arith;
}
push_all-Pushed (s ∷ q) k t =
    let r = push_all-Pushed q (q_push s k) t in
    let same : (q_push s k).procs t ≡ k.procs t = unfold q_push in refl in
    record {
      pcb_eq = unfold q_push in r.pcb_eq;
      enabled_eq = unfold q_push in r.enabled_eq;
      current_eq = unfold q_push in r.current_eq;
      idle_eq = unfold q_push in r.idle_eq;
      queue_eq = λ p. r.queue_eq p ∙ ground (arith, count-q_push s t p k, same);
    }

age_levels_rest :
    (n prio : ℕ) (k : Sched) (pr : List ℕ)
    → ((age_levels n prio k pr).0.scheduler_enabled ≡ k.scheduler_enabled)
      × ((age_levels n prio k pr).0.current ≡ k.current)
      × ((age_levels n prio k pr).0.idle_proc ≡ k.idle_proc)
unfolding age_levels
age_levels_rest zero prio k pr = (refl, refl, refl)
age_levels_rest (suc n) prio k pr = age_levels_rest n (prio + 1) _ _

-- `apply_aging` touches nothing but the table and the queues.
pub apply_aging_rest :
    (k : Sched)
    → ((apply_aging k).scheduler_enabled ≡ k.scheduler_enabled)
      × ((apply_aging k).current ≡ k.current)
      × ((apply_aging k).idle_proc ≡ k.idle_proc)
unfolding apply_aging
apply_aging_rest k =
    let r = age_levels max_prios 0 k [] in
    let p = push_all-Pushed r.1 r.0 0 in
    let q = age_levels_rest max_prios 0 k [] in
    (p.enabled_eq ∙ q.0, p.current_eq ∙ q.1, p.idle_eq ∙ q.2)

-- A process that waits in no queue is left as it is, and still waits in none.
pub apply_aging_absent :
    (k : Sched) (t : ℕ)
    → ((p : ℕ) → p < 4 → count t (k.queue p) ≡ 0)
    → ((apply_aging k).procs t ≡ k.procs t)
      × ((p : ℕ) → p < 4 → count t ((apply_aging k).queue p) ≡ 0)
unfolding apply_aging
apply_aging_absent k t away =
    let r = age_levels max_prios 0 k [] in
    let u = age_levels-Untouched max_prios 0 k [] t (omega arith) (λ p lo hi. away p hi) in
    let w = push_all-Pushed r.1 r.0 t in
    (
      w.pcb_eq ∙ u.pcb_eq,
      λ p h. ground (arith, w.queue_eq p, u.queue_eq p, u.promoted_eq, away p h),
    )

pub aged_priority :
    (p : Pcb) → (aged p).priority ≡ (if promotes (waited p) then p.priority + 1 else p.priority)
unfolding aged waited
aged_priority p = ground arith

pub promotes_below : (p : Pcb) → promotes (waited p) ≡ true → p.priority < 3
unfolding promotes waited
promotes_below p h = ground arith

-- A process that waits in the queue of its priority, once and in no other, is aged once, and then
-- waits once, in the queue of its priority of then.
pub apply_aging_waiting :
    (k : Sched) (t : ℕ)
    → (k.procs t).priority < 4
    → count t (k.queue (k.procs t).priority) ≡ 1
    → queued t k.queue ≡ 1
    → ((apply_aging k).procs t ≡ aged (k.procs t))
      × ((p : ℕ)
          → p < 4
          → count t ((apply_aging k).queue p) ≡ (if (aged (k.procs t)).priority == p then 1 else 0))
unfolding apply_aging
apply_aging_waiting k t hi one all =
    let l = (k.procs t).priority in
    let r = age_levels max_prios 0 k [] in
    let u =
      age_levels-Passed max_prios 0 l k [] t (omega arith) (omega arith) hi one
        (λ p lo h ne. omega (arith, count-pair-le k.queue t p l h hi ne)) in
    let w = push_all-Pushed r.1 r.0 t in
    let total = queued-age_levels max_prios 0 k [] t (omega arith) in
    let moved : (r.0.procs t).priority ≡ (aged (k.procs t)).priority =
      ap (λ (x : Pcb). x.priority) u.pcb_eq in
    (
      w.pcb_eq ∙ u.pcb_eq,
      λ p h. elim (Bool-cases (promotes (waited (k.procs t)))) [
        | inl up ↦
            let prio : (aged (k.procs t)).priority ≡ l + 1 = aged_priority (k.procs t) ∙ rw up in
            let leaves : count t r.1 ≡ 1 = u.promoted_eq ∙ rw up (omega arith) in
            let gone : count t (r.0.queue p) ≡ 0 =
              omega (arith, count-le-queued r.0.queue t p h, total, leaves) in
            let clamped : clamp_prio (r.0.procs t).priority ≡ (aged (k.procs t)).priority =
              ground (arith, promotes_below (k.procs t) up, prio, moved) in
            w.queue_eq p ∙ rw (clamped, leaves, gone) (omega arith)
        | inr stay ↦
            let prio : (aged (k.procs t)).priority ≡ l = aged_priority (k.procs t) ∙ rw stay in
            let leaves : count t r.1 ≡ 0 = u.promoted_eq ∙ rw stay (omega arith) in
            let keeps : count t (r.0.queue l) ≡ 1 = u.queue_eq ∙ rw stay in
            let here : count t (r.0.queue p) ≡ (if l == p then 1 else 0) =
              elim (Bool-cases (l == p)) [
                | inl e ↦
                    let same : l ≡ p = ground arith in
                    rw e (ap (λ x. count t (r.0.queue x)) (sym same) ∙ keeps)
                | inr e ↦
                    let apart : p ≢ l = λ z. absurd (ground arith) in
                    rw e (
                      omega (arith, count-pair-le r.0.queue t p l h hi apart, keeps, total, leaves))
              ] in
            w.queue_eq p ∙ rw (leaves, prio) (ground (arith, here))
      ],
    )
