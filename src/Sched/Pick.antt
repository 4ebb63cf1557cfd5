-- ===== src/Sched/Pick.antt =====
-- `pick_next` of Kernel/process/sched.c.
use tp2_kernel.Base.{
  ℕ, zero, suc, ◌+◌, ◌<◌, ◌≡◌, refl, ap, Option, none, some, List, [], ◌∷◌, arith, ◌==◌, update,
  count, Bool-cases, inl, inr, ◌⊎◌,
}
use tp2_kernel.Sched.{Sched, q_pop, pick_below, pick_next, max_prios}
use tp2_kernel.Sched.Queues.{queued, queued-update}

-- The head `s` of the highest queue below `n` that is not empty, and that queue without it.
pub record Picked (n : ℕ) (k : Sched) (s : ℕ) (k' : Sched) : Type 0 where
  pub level : ℕ
  pub rest : List ℕ
  pub below : level < n
  pub head : k.queue level ≡ s ∷ rest
  pub higher : (p : ℕ) → level < p → p < n → k.queue p ≡ []
  pub after : k' ≡ record k { queue = update k.queue level rest }

pub data Choice (n : ℕ) (k : Sched) : Option ℕ × Sched → Type 0 where
  idle : ((p : ℕ) → p < n → k.queue p ≡ []) → Choice n k (none, k)
  pick : (s : ℕ) (k' : Sched) → Picked n k s k' → Choice n k (some s, k')

List-cases : (q : List ℕ) → (q ≡ []) ⊎ ((s : ℕ) × (r : List ℕ) × (q ≡ s ∷ r))
List-cases [] = inl refl
List-cases (s ∷ r) = inr (s, r, refl)

empty_below :
    (n : ℕ) (k : Sched)
    → k.queue n ≡ []
    → ((p : ℕ) → p < n → k.queue p ≡ [])
    → (p : ℕ) → p < suc n
    → k.queue p ≡ []
empty_below n k e h p lt = elim (Bool-cases (p == n)) [
  | inl same ↦ let q : p ≡ n = ground arith in rw q e
  | inr other ↦ h p (ground arith)
]

-- An empty queue on top changes nothing.
Choice-suc :
    (n : ℕ) (k : Sched) (r : Option ℕ × Sched) → k.queue n ≡ [] → Choice n k r → Choice (suc n) k r
Choice-suc n k r e (idle h) = idle (empty_below n k e h)
Choice-suc n k r e (pick s k' c) = pick s k' (record {
  level = c.level;
  rest = c.rest;
  below = omega (arith, c.below);
  head = c.head;
  higher = λ p lo hi. elim (Bool-cases (p == n)) [
    | inl same ↦ let q : p ≡ n = ground arith in rw q e
    | inr other ↦ c.higher p lo (ground arith)
  ];
  after = c.after;
})

pub pick_below-Choice : (n : ℕ) (k : Sched) → Choice n k (pick_below n k)
unfolding pick_below q_pop
pick_below-Choice zero k = idle (λ p h. absurd (omega arith))
pick_below-Choice (suc n) k = elim (List-cases (k.queue n)) [
  | inl e ↦ rw (e, pick_below) (Choice-suc n k (pick_below n k) e (pick_below-Choice n k))
  | inr (s, r, e) ↦
      rw (e, pick_below)
        (rw (e, q_pop)
          (pick s (record k { queue = update k.queue n r })
            (record {
              level = n;
              rest = r;
              below = omega arith;
              head = e;
              higher = λ p lo hi. absurd (omega arith);
              after = refl;
            })))
]

-- `pick_next` takes the first process of the highest queue that is not empty, and takes none
-- exactly if the queues of all four levels are empty.
pub pick_next-Choice : (k : Sched) → Choice 4 k (pick_next k)
unfolding pick_next
pick_next-Choice k = pick_below-Choice max_prios k

Choice-queued :
    (k : Sched) (r : Option ℕ × Sched) (t : ℕ)
    → Choice 4 k r
    → queued t k.queue ≡ queued t r.1.queue + (elim r.0 [ none ↦ 0 | some s ↦ count t (s ∷ []) ])
Choice-queued k r t (idle h) = omega arith
Choice-queued k r t (pick s k' c) =
    let q = queued-update k.queue c.level c.rest t c.below in
    rw (c.after) (omega (arith, q, ap (count t) c.head))
