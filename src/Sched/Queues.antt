-- ===== src/Sched/Queues.antt =====
-- How often a process stands in the ready queues of Kernel/process/sched.c.
use tp2_kernel.Base.{
  ℕ, zero, suc, ◌+◌, ◌≤◌, ◌<◌, ◌≡◌, refl, List, [], ◌∷◌, ◌++◌, arith, update, count, count-append,
  Bool-cases, inl, inr,
}
use tp2_kernel.Sched.{
  Pcb, Sched, q_push, promotes, waited, aged, age_queue, age_levels, push_all, apply_aging,
  clamp_prio, max_prios,
}

-- How often `s` stands in the queues of the four levels.
abbrev pub queued : ℕ → (ℕ → List ℕ) → ℕ
queued s q = count s (q 0) + count s (q 1) + count s (q 2) + count s (q 3)

pub queued-update :
    (q : ℕ → List ℕ) (p : ℕ) (v : List ℕ) (s : ℕ)
    → p < 4
    → queued s (update q p v) + count s (q p) ≡ queued s q + count s v
queued-update q zero v s h = omega arith
queued-update q (suc zero) v s h = omega arith
queued-update q (suc (suc zero)) v s h = omega arith
queued-update q (suc (suc (suc zero))) v s h = omega arith
queued-update q (suc (suc (suc (suc p)))) v s h = absurd (omega arith)

pub clamp_prio_lt : (p : ℕ) → clamp_prio p < 4
clamp_prio_lt p = ground arith

-- `q_push` adds one entry, for the process that it is given.
pub queued-q_push :
    (s t : ℕ) (k : Sched) → queued t (q_push s k).queue ≡ queued t k.queue + count t (s ∷ [])
unfolding q_push
queued-q_push s t k =
    let p = clamp_prio (k.procs s).priority in
    omega (
      arith,
      queued-update k.queue p (k.queue p ++ s ∷ []) t (clamp_prio_lt (k.procs s).priority),
      count-append t (k.queue p) (s ∷ []),
    )

pub queued-push_all :
    (q : List ℕ) (t : ℕ) (k : Sched) → queued t (push_all q k).queue ≡ queued t k.queue + count t q
unfolding push_all
queued-push_all [] t k = omega arith
queued-push_all (s ∷ q) t k = omega (arith, queued-push_all q t (q_push s k), queued-q_push s t k)

-- The loop over one queue splits it.
pub count-age_queue :
    (q : List ℕ) (procs : ℕ → Pcb) (t : ℕ)
    → count t (age_queue q procs).kept + count t (age_queue q procs).promoted ≡ count t q
unfolding age_queue
count-age_queue [] procs t = refl
count-age_queue (s ∷ q) procs t =
    let rest = count-age_queue q (update procs s (aged (procs s))) t in
    elim (Bool-cases (promotes (waited (procs s)))) [
      | inl p ↦ rw p (omega (arith, rest))
      | inr p ↦ rw p (omega (arith, rest))
    ]

pub queued-age_levels :
    (n prio : ℕ) (k : Sched) (pr : List ℕ) (t : ℕ)
    → prio + n ≤ 4
    → queued t (age_levels n prio k pr).0.queue + count t (age_levels n prio k pr).1
      ≡ queued t k.queue + count t pr
unfolding age_levels
queued-age_levels zero prio k pr t h = refl
queued-age_levels (suc n) prio k pr t h =
    let a = age_queue (k.queue prio) k.procs in
    let k' : Sched = record k { procs = a.table; queue = update k.queue prio a.kept } in
    omega (
      arith,
      queued-age_levels n (prio + 1) k' (pr ++ a.promoted) t (omega arith),
      queued-update k.queue prio a.kept t (omega arith),
      count-age_queue (k.queue prio) k.procs t,
      count-append t pr a.promoted,
    )

-- A pass of `apply_aging` moves processes between the queues: every process stands in them as
-- often as before.
pub queued-apply_aging : (t : ℕ) (k : Sched) → queued t (apply_aging k).queue ≡ queued t k.queue
unfolding apply_aging
queued-apply_aging t k =
    let r = age_levels max_prios 0 k [] in
    omega (arith, queued-push_all r.1 t r.0, queued-age_levels max_prios 0 k [] t (omega arith))
