-- ===== src/Sched/Steps.antt =====
-- The parts of `schedule` (Kernel/process/sched.c) under the invariant of the ready queues.
use tp2_kernel.Base.{
  ℕ, ◌≤◌, ◌<◌, ◌≡◌, ◌≢◌, refl, ap, sym, ◌∙◌, false, some, arith, ◌==◌, count, Bool-cases, inl, inr,
}
use tp2_kernel.Sched.{Pcb, Sched, ready, waited, aged, q_push, apply_aging, set_pcb}
use tp2_kernel.Sched.Queues.{queued, queued-apply_aging, queued-q_push}
use tp2_kernel.Sched.AgingPass.{update_other}
use tp2_kernel.Sched.Promotion.{
  count-le-queued, count-q_push, apply_aging_rest, apply_aging_absent, apply_aging_waiting,
}
use tp2_kernel.Sched.Invariant.{Waiting, Queues, Queues-where}

procs-set_pcb_other :
    (c t : ℕ) (p : Pcb) (k : Sched) → (c == t) ≡ false → (set_pcb c p k).procs t ≡ k.procs t
procs-set_pcb_other c t p k h = update_other k.procs c t p h

procs-set_pcb_self : (c : ℕ) (p : Pcb) (k : Sched) → (set_pcb c p k).procs c ≡ p
procs-set_pcb_self c p k = ground arith

-- A process that stands in no queue may be written, if it does not become READY.
pub set_pcb-Queues :
    (c : ℕ) (p : Pcb) (k : Sched)
    → Queues k
    → queued c k.queue ≡ 0
    → p.state ≢ ready
    → p.base_priority ≤ 3
    → Queues (set_pcb c p k)
set_pcb-Queues c p k v out ne base = record {
  placed = λ l t h q. elim (Bool-cases (c == t)) [
    | inl e ↦
        let same : c ≡ t = ground arith in
        absurd (omega (arith, count-le-queued k.queue t l h, ap (λ x. queued x k.queue) same))
    | inr e ↦ rw (procs-set_pcb_other c t p k e) (v.placed l t h q)
  ];
  once = v.once;
  base = λ t. elim (Bool-cases (c == t)) [ inl e ↦ rw e base | inr e ↦ rw e (v.base t) ];
  idle_out = λ i e. elim (Bool-cases (c == i)) [ inl q ↦ rw q ne | inr q ↦ rw q (v.idle_out i e) ];
}

pushed : (c : ℕ) (k : Sched) (t : ℕ) → (q_push c k).procs t ≡ k.procs t
unfolding q_push
pushed c k t = refl

aged_rest :
    (b : Pcb)
    → ((aged b).state ≡ b.state)
      × ((aged b).kframe ≡ b.kframe)
      × ((aged b).base_priority ≡ b.base_priority)
unfolding aged waited
aged_rest b = ground arith

-- A process that stands in no queue may be made READY and queued.
pub q_push-Queues :
    (c : ℕ) (p : Pcb) (k : Sched)
    → Queues k
    → queued c k.queue ≡ 0
    → p.state ≡ ready
    → p.kframe ≢ 0
    → p.priority ≤ 3
    → p.base_priority ≤ 3
    → k.idle_proc ≢ some c
    → Queues (q_push c (set_pcb c p k))
q_push-Queues c p k v out rd fr prio base ni =
    let k' : Sched = set_pcb c p k in
    record {
      placed = λ l t h q. elim (Bool-cases (c == t)) [
        | inl e ↦
            let same : c ≡ t = ground arith in
            let self : k'.procs t ≡ p = rw e in
            let none_there = count-le-queued k.queue t l h in
            let zero_there : queued t k.queue ≡ 0 = ap (λ x. queued x k.queue) (sym same) ∙ out in
            let here : p.priority ≡ l =
              ground (arith, count-q_push c t l k', self, none_there, zero_there) in
            rw (pushed c k' t ∙ self) (record { is_ready = rd; at = here; framed = fr })
        | inr e ↦
            let self : k'.procs t ≡ k.procs t = rw e in
            let there : 0 < count t (k.queue l) = ground (arith, count-q_push c t l k') in
            rw (pushed c k' t ∙ self) (v.placed l t h there)
      ];
      once = λ t. elim (Bool-cases (c == t)) [
        | inl e ↦
            let same : c ≡ t = ground arith in
            let zero_there : queued t k.queue ≡ 0 = ap (λ x. queued x k.queue) (sym same) ∙ out in
            ground (arith, queued-q_push c t k', zero_there)
        | inr e ↦ ground (arith, queued-q_push c t k', v.once t)
      ];
      base =
          unfold q_push in
          λ t. elim (Bool-cases (c == t)) [ inl e ↦ rw e base | inr e ↦ rw e (v.base t) ];
      idle_out =
          unfold q_push in
          λ i e. elim (Bool-cases (c == i)) [
            | inl q ↦ let same : c ≡ i = ground arith in absurd (ni (rw same e))
            | inr q ↦ rw q (v.idle_out i e)
          ];
    }

apply_aging_where :
    (k : Sched) (t p : ℕ)
    → Queues k
    → p < 4
    → 0 < count t ((apply_aging k).queue p)
    → Waiting p ((apply_aging k).procs t)
apply_aging_where k t p v h q = elim (Queues-where k t v) [
  | inl out ↦
      let away =
        apply_aging_absent k t (λ l hl. omega (arith, count-le-queued k.queue t l hl, out)) in
      absurd (omega (arith, away.1 p h))
  | inr (hi, one, all, w) ↦
      let r = apply_aging_waiting k t hi one all in
      let keeps = aged_rest (k.procs t) in
      let count_here = r.1 p h in
      let at_p : (aged (k.procs t)).priority ≡ p = ground arith in
      rw (r.0) (record {
        is_ready = keeps.0 ∙ w.is_ready;
        at = at_p;
        framed = λ z. w.framed (sym keeps.1 ∙ z);
      })
]

-- What a pass of aging leaves of a process: its state, its frame and its base priority.
pub apply_aging_keeps :
    (k : Sched) (t : ℕ)
    → Queues k
    → (((apply_aging k).procs t).state ≡ (k.procs t).state)
      × (((apply_aging k).procs t).kframe ≡ (k.procs t).kframe)
      × (((apply_aging k).procs t).base_priority ≡ (k.procs t).base_priority)
apply_aging_keeps k t v = elim (Queues-where k t v) [
  | inl out ↦
      let away =
        apply_aging_absent k t (λ l hl. omega (arith, count-le-queued k.queue t l hl, out)) in
      rw (away.0) (refl, refl, refl)
  | inr (hi, one, all, w) ↦ rw ((apply_aging_waiting k t hi one all).0) (aged_rest (k.procs t))
]

-- A pass of aging keeps the invariant of the queues.
pub apply_aging-Queues : (k : Sched) → Queues k → Queues (apply_aging k)
apply_aging-Queues k v = record {
  placed = λ p t h q. apply_aging_where k t p v h q;
  once = λ t. rw (queued-apply_aging t k) (v.once t);
  base = λ t. rw ((apply_aging_keeps k t v).2) (v.base t);
  idle_out =
      λ i e. rw ((apply_aging_keeps k i v).0) (v.idle_out i (sym (apply_aging_rest k).2 ∙ e));
}
