-- ===== src/Proc/Zombies.antt =====
-- `collect_zombies` of Kernel/process/proc.c.
use tp2_kernel.Base.{
  ℕ, ◌+◌, ◌<◌, ◌≤◌, ◌≢◌, ◌≡◌, refl, sym, ap, subst, ◌∙◌, Bool, true, false, List, [], ◌∷◌, arith,
  ltb, ltb→lt, ◌==◌, ==_self, if◌then◌else◌, count, Bool-cases, inl, inr, ◌⊎◌,
}
use tp2_kernel.Proc.Life.Scheduling.{collect_zombies_sched}
use tp2_kernel.Proc.{
  Kernel, is_reapable, reap, free_stack, release_slot, collect_from, collect_zombies,
}

-- A stack is one more time among those given back to `mm_free`.
abbrev pub FreesStack : ℕ → Kernel → Kernel → Type 0
FreesStack s k k' =
    (k.info s).kstack_base ≢ 0
    → count (k.info s).kstack_base k.freed < count (k.info s).kstack_base k'.freed

-- What a pass over the zombies `zs` makes of a kernel: those that nobody will wait for are released with
-- their stacks, and the others stay as they are.
record Pass (zs pending : List ℕ) (k k' : Kernel) : Type 0 where
  zombies :
      (s : ℕ)
      → count s k'.zombies ≡ count s pending + (if is_reapable (k.info s) then 0 else count s zs)
  released :
      (s : ℕ)
      → 0 < count s zs
      → is_reapable (k.info s) ≡ true
      → ((k'.info s).used ≡ false) × ((k'.info s).kstack_base ≡ 0) × FreesStack s k k'
  frees : (a : ℕ) → count a k.freed ≤ count a k'.freed
  kept : (s : ℕ) → (count s zs ≡ 0) ⊎ (is_reapable (k.info s) ≡ false) → k'.info s ≡ k.info s

reap_other : (z s : ℕ) (k : Kernel) → (z == s) ≡ false → (reap z k).info s ≡ k.info s
unfolding reap free_stack release_slot
reap_other z s k e = rw e refl

reap_self :
    (z : ℕ) (k : Kernel)
    → (((reap z k).info z).used ≡ false)
      × (((reap z k).info z).kstack_base ≡ 0)
      × (is_reapable ((reap z k).info z) ≡ is_reapable (k.info z))
unfolding reap free_stack release_slot
reap_self z k = rw (==_self z) (refl, refl, refl)

reap_reapable : (z s : ℕ) (k : Kernel) → is_reapable ((reap z k).info s) ≡ is_reapable (k.info s)
reap_reapable z s k = elim (Bool-cases (z == s)) [
  | inl e ↦
      let same : z ≡ s = ground arith in
      subst (λ u. is_reapable ((reap z k).info u) ≡ is_reapable (k.info u)) same (reap_self z k).2
  | inr e ↦ ap is_reapable (reap_other z s k e)
]

reap_frees : (z : ℕ) (k : Kernel) → FreesStack z k (reap z k)
unfolding reap free_stack release_slot
reap_frees z k nz =
    let a = (k.info z).kstack_base in
    let some_stack : (a == 0) ≡ false = ground (arith, nz) in
    rw some_stack (rw (==_self a) (omega arith))

reap_keeps_freed : (z : ℕ) (k : Kernel) (a : ℕ) → count a k.freed ≤ count a (reap z k).freed
unfolding reap free_stack release_slot
reap_keeps_freed z k a = elim (Bool-cases ((k.info z).kstack_base == 0)) [
  | inl e ↦ rw e (omega arith)
  | inr e ↦ rw e (omega arith)
]

-- The stack of a zombie is given back when it is released, at the head of the list or later.
stack_freed :
    (z s : ℕ) (k k' : Kernel)
    → ((a : ℕ) → count a (reap z k).freed ≤ count a k'.freed)
    → ((z == s) ≡ false → FreesStack s (reap z k) k')
    → FreesStack s k k'
stack_freed z s k k' more others nz = elim (Bool-cases (z == s)) [
  | inl e ↦
      let same : z ≡ s = ground arith in
      let own = subst (λ u. FreesStack u k (reap z k)) same (reap_frees z k) in
      omega (arith, own nz, more (k.info s).kstack_base)
  | inr e ↦
      let kept = reap_other z s k e in
      let later = (rw kept at (others e)) nz in
      omega (arith, later, reap_keeps_freed z k (k.info s).kstack_base)
]

by_head :
    (z s : ℕ) (zs : List ℕ) → 0 < count s (z ∷ zs) → (0 < count s zs) ⊎ ((count s zs ≡ 0) × (z ≡ s))
by_head z s zs h = elim (Bool-cases (ltb 0 (count s zs))) [
  | inl e ↦ inl (ltb→lt 0 (count s zs) e)
  | inr e ↦ inr (ground arith, ground arith)
]

skip_zero : (b : Bool) (n : ℕ) → (if b then 0 else n) ≡ (if b then 0 else 0 + n)
skip_zero true n = refl
skip_zero false n = omega arith

-- A zombie that is released.
Pass-reaped :
    (z : ℕ) (zs pending : List ℕ) (k k' : Kernel)
    → is_reapable (k.info z) ≡ true
    → Pass zs pending (reap z k) k'
    → Pass (z ∷ zs) pending k k'
Pass-reaped z zs pending k k' d ih = record {
  zombies = λ s.
      let same = reap_reapable z s k in
      let before = rw same at (ih.zombies s) in
      elim (Bool-cases (z == s)) [
        | inl e ↦
            let self : z ≡ s = ground arith in
            let r : is_reapable (k.info s) ≡ true =
              ap (λ u. is_reapable (k.info u)) (sym self) ∙ d in
            let now : count s k'.zombies ≡ count s pending + 0 = rw r at before in rw r now
        | inr e ↦ rw e (
            before
            ∙ ap (λ n. count s pending + n) (skip_zero (is_reapable (k.info s)) (count s zs)))
      ];
  released = λ s h r. elim (by_head z s zs h) [
    | inl more ↦
        let gone = ih.released s more (reap_reapable z s k ∙ r) in
        (gone.0, gone.1, stack_freed z s k k' ih.frees (λ e. gone.2))
    | inr (last, same) ↦
        let left = ih.kept s (inl last) in
        let own = reap_self z k in
        let gone = stack_freed z s k k' ih.frees (λ e. absurd (ground (arith, same))) in
        (
          ap (λ i. i.used) left ∙ ap (λ u. ((reap z k).info u).used) (sym same) ∙ own.0,
          ap (λ i. i.kstack_base) left
              ∙ ap (λ u. ((reap z k).info u).kstack_base) (sym same)
              ∙ own.1,
          gone,
        )
  ];
  frees =
      λ a. let head = reap_keeps_freed z k a in let rest = ih.frees a in omega (arith, head, rest);
  kept = λ s h. elim (Bool-cases (z == s)) [
    | inl e ↦
        let self : z ≡ s = ground arith in
        elim h [
          | inl none_left ↦ absurd (ground arith)
          | inr waits ↦
              let no : true ≡ false = sym d ∙ ap (λ u. is_reapable (k.info u)) self ∙ waits in cc
        ]
    | inr e ↦
        ih.kept s (elim h [
          | inl none_left ↦ inl (ground arith)
          | inr waits ↦ inr (reap_reapable z s k ∙ waits)
        ])
        ∙ reap_other z s k e
  ];
}

-- A zombie that a parent may still wait for.
Pass-left :
    (z : ℕ) (zs pending : List ℕ) (k k' : Kernel)
    → is_reapable (k.info z) ≡ false
    → Pass zs (z ∷ pending) k k'
    → Pass (z ∷ zs) pending k k'
Pass-left z zs pending k k' d ih = record {
  zombies = λ s. elim (Bool-cases (z == s)) [
    | inl e ↦
        let self : z ≡ s = ground arith in
        let r : is_reapable (k.info s) ≡ false = ap (λ u. is_reapable (k.info u)) (sym self) ∙ d in
        let before = rw r at (ih.zombies s) in rw r (omega (arith, before))
    | inr e ↦
        let before = rw e at (ih.zombies s) in
        rw e (omega (arith, before, skip_zero (is_reapable (k.info s)) (count s zs)))
  ];
  released = λ s h r. elim (by_head z s zs h) [
    | inl more ↦ ih.released s more r
    | inr (last, same) ↦
        let no : false ≡ true = sym d ∙ ap (λ u. is_reapable (k.info u)) same ∙ r in cc
  ];
  frees = ih.frees;
  kept = λ s h. ih.kept s (elim h [ inl none_left ↦ inl (ground arith) | inr waits ↦ inr waits ]);
}

collect_from-Pass :
    (zs pending : List ℕ) (k : Kernel) → Pass zs pending k (collect_from zs pending k)
unfolding collect_from
collect_from-Pass [] pending k = record {
  zombies = λ s. ground arith;
  released = λ s h. absurd (omega arith);
  frees = λ a. omega arith;
  kept = λ s h. refl;
}
collect_from-Pass (z ∷ zs) pending k = elim (Bool-cases (is_reapable (k.info z))) [
  | inl d ↦
      rw (d, collect_from)
        (Pass-reaped z zs pending k _ d (collect_from-Pass zs pending (reap z k)))
  | inr d ↦
      rw (d, collect_from) (Pass-left z zs pending k _ d (collect_from-Pass zs (z ∷ pending) k))
]

-- What `collect_zombies` makes of a kernel.
pub record Collected (k k' : Kernel) : Type 0 where
  pub zombies :
      (s : ℕ) → count s k'.zombies ≡ (if is_reapable (k.info s) then 0 else count s k.zombies)
  pub released :
      (s : ℕ)
      → 0 < count s k.zombies
      → is_reapable (k.info s) ≡ true
      → ((k'.info s).used ≡ false) × ((k'.info s).kstack_base ≡ 0) × FreesStack s k k'
  pub kept :
      (s : ℕ) → (count s k.zombies ≡ 0) ⊎ (is_reapable (k.info s) ≡ false) → k'.info s ≡ k.info s
  pub sched : k'.sched ≡ k.sched

-- `collect_zombies` releases the slot of every zombie that is orphaned or whose parent was told and gives
-- its stack to `mm_free`, leaves the other zombies in the list, as often as they were, and changes no other process.
pub collect_zombies-Collected : (k : Kernel) → Collected k (collect_zombies k)
unfolding collect_zombies
collect_zombies-Collected k =
    let p = collect_from-Pass k.zombies [] k in
    record {
      zombies = λ s. omega (arith, p.zombies s);
      released = p.released;
      kept = p.kept;
      sched = collect_zombies_sched k;
    }
