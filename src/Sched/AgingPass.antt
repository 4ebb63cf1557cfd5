-- ===== src/Sched/AgingPass.antt =====
-- One pass of `apply_aging` (Kernel/process/sched.c) over the queues.
use tp2_kernel.Base.{
  ℕ, zero, suc, ◌+◌, ◌≤◌, ◌<◌, ◌≡◌, ◌≢◌, refl, ap, sym, ◌∙◌, true, false, List, [], ◌∷◌, ◌++◌,
  arith, ◌==◌, if◌then◌else◌, update, count, count-append, Bool-cases, inl, inr,
}
use tp2_kernel.Sched.{Pcb, Sched, promotes, waited, aged, age_queue, age_levels}
use tp2_kernel.Sched.Queues.{count-age_queue}

update_same {ℓ} : {A : Type ℓ} (f : ℕ → A) (s t : ℕ) (v : A) → (s == t) ≡ true → update f s v t ≡ v
update_same f s t v h = rw h

pub update_other {ℓ} :
    {A : Type ℓ} (f : ℕ → A) (s t : ℕ) (v : A) → (s == t) ≡ false → update f s v t ≡ f t
update_other f s t v h = rw h

module _ {ℓ} {A : Type ℓ} (f : Pcb → A) (keep : (p : Pcb) → f (aged p) ≡ f p) where
  pub age_queue_keeps :
      (q : List ℕ) (procs : ℕ → Pcb) (t : ℕ) → f ((age_queue q procs).table t) ≡ f (procs t)
  unfolding age_queue
  age_queue_keeps [] procs t = refl
  age_queue_keeps (s ∷ q) procs t =
      let step : f (update procs s (aged (procs s)) t) ≡ f (procs t) = elim (Bool-cases (s == t)) [
        | inl e ↦ let same : s ≡ t = ground arith in rw (e, same) (keep (procs t))
        | inr e ↦ rw e refl
      ] in
      let rest = age_queue_keeps q (update procs s (aged (procs s))) t ∙ step in
      elim (Bool-cases (promotes (waited (procs s)))) [ inl p ↦ rw p rest | inr p ↦ rw p rest ]

-- A process that stands in another queue is not touched.
pub age_queue-absent :
    (q : List ℕ) (procs : ℕ → Pcb) (t : ℕ) → count t q ≡ 0 → (age_queue q procs).table t ≡ procs t
unfolding age_queue
age_queue-absent [] procs t h = refl
age_queue-absent (s ∷ q) procs t h =
    let other : (s == t) ≡ false = ground arith in
    let rest =
      age_queue-absent q (update procs s (aged (procs s))) t (ground arith)
      ∙ update_other procs s t (aged (procs s)) other in
    elim (Bool-cases (promotes (waited (procs s)))) [ inl p ↦ rw p rest | inr p ↦ rw p rest ]

-- What the loop does to a process that stands in the queue once.
pub record AgedOnce (q : List ℕ) (procs : ℕ → Pcb) (t : ℕ) : Type 0 where
  pub table_eq : (age_queue q procs).table t ≡ aged (procs t)
  pub kept_eq : count t (age_queue q procs).kept ≡ (if promotes (waited (procs t)) then 0 else 1)

pub age_queue-AgedOnce : (q : List ℕ) (procs : ℕ → Pcb) (t : ℕ) → count t q ≡ 1 → AgedOnce q procs t
unfolding age_queue
age_queue-AgedOnce [] procs t h = absurd (omega arith)
age_queue-AgedOnce (s ∷ q) procs t h =
    let procs' : ℕ → Pcb = update procs s (aged (procs s)) in
    elim (Bool-cases (s == t)) [
      | inl e ↦
          let same : s ≡ t = ground arith in
          let gone : count t q ≡ 0 = ground arith in
          let table_eq : (age_queue q procs').table t ≡ aged (procs t) =
            age_queue-absent q procs' t gone ∙ rw (e, same) refl in
          let kept : count t (age_queue q procs').kept ≡ 0 =
            omega (arith, count-age_queue q procs' t) in
          elim (Bool-cases (promotes (waited (procs s)))) [
            | inl p ↦ record {
              table_eq = rw p table_eq;
              kept_eq = rw (← same, p) (rw (← same) at kept);
            }
            | inr p ↦ record {
              table_eq = rw p table_eq;
              kept_eq =
                  let pt : promotes (waited (procs t)) ≡ false = rw same at p in
                  rw (p, pt, e) (omega (arith, kept));
            }
          ]
      | inr e ↦
          let r = age_queue-AgedOnce q procs' t (ground arith) in
          let table_eq : (age_queue q procs').table t ≡ aged (procs t) = r.table_eq ∙ rw e in
          let kept : count t (age_queue q procs').kept
              ≡ (if promotes (waited (procs t)) then 0 else 1) =
            r.kept_eq ∙ rw e in
          elim (Bool-cases (promotes (waited (procs s)))) [
            | inl p ↦ record { table_eq = rw p table_eq; kept_eq = rw p kept }
            | inr p ↦ record { table_eq = rw p table_eq; kept_eq = rw (p, e) (omega (arith, kept)) }
          ]
    ]

count-age_queue-absent :
    (q : List ℕ) (procs : ℕ → Pcb) (t : ℕ)
    → count t q ≡ 0
    → (count t (age_queue q procs).kept ≡ 0) × (count t (age_queue q procs).promoted ≡ 0)
count-age_queue-absent q procs t h = omega (arith, count-age_queue q procs t)

-- The levels from `prio` up leave a process alone that does not stand in them.
pub record Untouched (n prio : ℕ) (k : Sched) (pr : List ℕ) (t : ℕ) : Type 0 where
  pub pcb_eq : (age_levels n prio k pr).0.procs t ≡ k.procs t
  pub promoted_eq : count t (age_levels n prio k pr).1 ≡ count t pr
  pub queue_eq : (p : ℕ) → count t ((age_levels n prio k pr).0.queue p) ≡ count t (k.queue p)

pub age_levels-Untouched :
    (n prio : ℕ) (k : Sched) (pr : List ℕ) (t : ℕ)
    → prio + n ≡ 4
    → ((p : ℕ) → prio ≤ p → p < 4 → count t (k.queue p) ≡ 0)
    → Untouched n prio k pr t
unfolding age_levels
age_levels-Untouched zero prio k pr t e away = record {
  pcb_eq = refl;
  promoted_eq = refl;
  queue_eq = λ p. refl;
}
age_levels-Untouched (suc n) prio k pr t e away =
    let a = age_queue (k.queue prio) k.procs in
    let k' : Sched = record k { procs = a.table; queue = update k.queue prio a.kept } in
    let here = away prio (omega arith) (omega arith) in
    let gone = count-age_queue-absent (k.queue prio) k.procs t here in
    let r = age_levels-Untouched n (prio + 1) k' (pr ++ a.promoted) t (omega arith) (λ p lo hi.
      rw (update_other k.queue prio p a.kept (ground arith)) (away p (omega arith) hi)) in
    record {
      pcb_eq = r.pcb_eq ∙ age_queue-absent (k.queue prio) k.procs t here;
      promoted_eq = omega (arith, r.promoted_eq, count-append t pr a.promoted, gone.1);
      queue_eq = λ p. elim (Bool-cases (prio == p)) [
        | inl same ↦
            let q : prio ≡ p = ground arith in
            r.queue_eq p
            ∙ ap (count t) (update_same k.queue prio p a.kept same)
            ∙ gone.0
            ∙ sym here
            ∙ ap (λ x. count t (k.queue x)) q
        | inr other ↦ r.queue_eq p ∙ ap (count t) (update_other k.queue prio p a.kept other)
      ];
    }

-- What the pass makes of a process that stands once in the queue of level `l`, and in no other.
pub record Passed (n prio l : ℕ) (k : Sched) (pr : List ℕ) (t : ℕ) : Type 0 where
  pub pcb_eq : (age_levels n prio k pr).0.procs t ≡ aged (k.procs t)
  pub promoted_eq :
      count t (age_levels n prio k pr).1
      ≡ count t pr + (if promotes (waited (k.procs t)) then 1 else 0)
  pub queue_eq :
      count t ((age_levels n prio k pr).0.queue l)
      ≡ (if promotes (waited (k.procs t)) then 0 else 1)

pub age_levels-Passed :
    (n prio l : ℕ) (k : Sched) (pr : List ℕ) (t : ℕ)
    → prio + n ≡ 4
    → prio ≤ l
    → l < 4
    → count t (k.queue l) ≡ 1
    → ((p : ℕ) → prio ≤ p → p < 4 → p ≢ l → count t (k.queue p) ≡ 0)
    → Passed n prio l k pr t
unfolding age_levels
age_levels-Passed zero prio l k pr t e lo hi one away = absurd (omega arith)
age_levels-Passed (suc n) prio l k pr t e lo hi one away =
    let a = age_queue (k.queue prio) k.procs in
    let k' : Sched = record k { procs = a.table; queue = update k.queue prio a.kept } in
    elim (Bool-cases (prio == l)) [
      | inl same ↦
          let q : prio ≡ l = ground arith in
          let o = age_queue-AgedOnce (k.queue prio) k.procs t (rw q one) in
          let r =
            age_levels-Untouched n (prio + 1) k' (pr ++ a.promoted) t (omega arith) (λ p lo' hi'.
              rw (update_other k.queue prio p a.kept (ground arith))
                (away p (omega arith) hi' (λ z. absurd (omega arith)))) in
          record {
            pcb_eq = r.pcb_eq ∙ o.table_eq;
            promoted_eq = ground (
              arith,
              r.promoted_eq,
              count-append t pr a.promoted,
              o.kept_eq,
              count-age_queue (k.queue prio) k.procs t,
              one,
              ap (λ x. count t (k.queue x)) q,
            );
            queue_eq =
                r.queue_eq l ∙ ap (count t) (update_same k.queue prio l a.kept same) ∙ o.kept_eq;
          }
      | inr other ↦
          let here = away prio (omega arith) (omega arith) (λ z. absurd (ground arith)) in
          let gone = count-age_queue-absent (k.queue prio) k.procs t here in
          let still = age_queue-absent (k.queue prio) k.procs t here in
          let r =
            age_levels-Passed n (prio + 1) l k' (pr ++ a.promoted) t (omega arith) (ground arith) hi
              (rw (update_other k.queue prio l a.kept other) one)
              (λ p lo' hi' ne.
                rw (update_other k.queue prio p a.kept (ground arith))
                  (away p (omega arith) hi' ne)) in
          record {
            pcb_eq = r.pcb_eq ∙ ap aged still;
            promoted_eq =
                r.promoted_eq
                ∙ omega (
                  arith,
                  count-append t pr a.promoted,
                  gone.1,
                  ap {B = ℕ} (λ x. if promotes (waited x) then 1 else 0) still,
                );
            queue_eq = r.queue_eq ∙ ap {B = ℕ} (λ x. if promotes (waited x) then 0 else 1) still;
          }
    ]
