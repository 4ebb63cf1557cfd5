-- ===== src/Proc/Calls/Waiting.antt =====
-- What `proc_wait` of Kernel/process/proc.c returns, on each of its paths.
use tp2_kernel.Base.{
  ℕ, ◌≡◌, refl, ap, fun_ext, subst, sym, ◌∙◌, false, Option, none, some, List, [], ◌∷◌, arith, ◌==◌,
  ==_self, if◌then◌else◌, update, Bool-cases, Option-cases, inl, inr, ℤ, is_positive,
}
use tp2_kernel.WaitResults.{WaitResult, consume_wait_result, consume_pending}
use tp2_kernel.WaitResults.Refinement.{
  consume_wait_result-none, held, optional, take_first, consume_wait_result-refines,
  consume_pending-after, take_first-none-append, consume_pending-is_take_first,
}
use tp2_kernel.Proc.{Info, Kernel, set_info, set_proc, collect_zombies}
use tp2_kernel.Proc.Life.{find_child}
use tp2_kernel.Proc.Calls.{
  any_child, take_result, set_waiter, halted, wait_asleep, wait_child, proc_wait,
}

-- The results that the process in slot `p` holds.
abbrev pub held_by : ℕ → Kernel → List WaitResult
held_by p k = held (k.info p).results

-- The process that waits, with the child that it waits for, as it gives up the processor.
abbrev pub sleeping : ℤ → ℕ → Kernel → Kernel
sleeping target p k =
    let k' = set_info p (record (k.info p) { waiting_for = target }) k in
    set_proc p (halted (k'.sched.procs p)) k'

set_waiter_results :
    (o waiter : Option ℕ) (p : ℕ) (k : Kernel)
    → ((set_waiter o waiter k).info p).results ≡ (k.info p).results
set_waiter_results none waiter p k = refl
set_waiter_results (some c) waiter p k = elim (Bool-cases (c == p)) [
  | inl e ↦ let same : c ≡ p = ground arith in rw e (ap (λ u. (k.info u).results) same)
  | inr e ↦ rw e refl
]

-- The first result that fits after the sleep is returned.
wait_asleep-result :
    (child : Option ℕ) (target : ℤ) (meanwhile : Kernel → Kernel) (p : ℕ) (k : Kernel)
    → (wait_asleep child target meanwhile p k).0
      ≡ (take_first target (held_by p (collect_zombies (meanwhile (sleeping target p k))))).0
unfolding wait_asleep
wait_asleep-result child target meanwhile p k =
    let k₂ = collect_zombies (meanwhile (sleeping target p k)) in
    let w = (k₂.info p).results in
    let c = consume_wait_result-refines target w in
    elim (Option-cases (consume_wait_result target w).0) [
      | inr (r, e) ↦ rw (e, wait_asleep) (sym e ∙ c.0)
      | inl e ↦
          rw (e, wait_asleep)
            (rw (set_waiter_results child none p _)
              (rw (==_self p) (consume_pending-after target w e ∙ sym e ∙ c.0)))
    ]

abbrev pub first_child : List ℕ → Option ℕ
first_child [] = none
first_child (c ∷ cs) = some c

-- How `proc_wait` finds a child to wait for.
abbrev pub awaited : ℤ → ℕ → Kernel → Option ℕ
awaited target p k =
    if is_positive target then find_child p target k else first_child (k.info p).children

-- The child is told who waits for it, if one was named.
abbrev pub named : ℤ → ℕ → ℕ → Kernel → Kernel
named target c p k = if is_positive target then set_waiter (some c) (some p) k else k

-- The result of `proc_wait` by the process in slot `p`, for a target that is not 0, once the zombies are
-- collected: a result that fits is returned at once; without one and without a child, none is; with
-- a child, the first result that fits after the sleep is returned.
pub record WaitOutcome (target : ℤ) (meanwhile : Kernel → Kernel) (p : ℕ) (k : Kernel)
    (r : Option WaitResult) : Type 0 where
  pub at_once : (x : WaitResult) → (take_first target (held_by p k)).0 ≡ some x → r ≡ some x
  pub no_child : (take_first target (held_by p k)).0 ≡ none → awaited target p k ≡ none → r ≡ none
  pub slept :
      (c : ℕ)
      → (take_first target (held_by p k)).0 ≡ none
      → awaited target p k ≡ some c
      → r
        ≡ (take_first target
            (held_by p (collect_zombies (meanwhile (sleeping target p (named target c p k)))))).0

update_self : (f : ℕ → Info) (i : ℕ) → update f i (f i) ≡ f
update_self f i = fun_ext λ j. elim (Bool-cases (i == j)) [
  | inl e ↦ let same : i ≡ j = ground arith in rw e (ap f same)
  | inr e ↦ rw e refl
]

-- A look for a result that finds none changes nothing.
take_result-none :
    (target : ℤ) (p : ℕ) (k : Kernel)
    → (consume_wait_result target (k.info p).results).0 ≡ none
    → take_result consume_wait_result target p k ≡ (none, k)
take_result-none target p k e =
    rw (e, consume_wait_result-none target (k.info p).results e) (rw (update_self k.info p) refl)

-- What fits nowhere is not the result without a node.
pending_none :
    (target : ℤ) (p : ℕ) (k : Kernel)
    → (take_first target (held_by p k)).0 ≡ none
    → (take_result consume_pending target p k).0 ≡ none
pending_none target p k e =
    let w = (k.info p).results in
    (consume_pending-is_take_first target w).0
    ∙ take_first-none-append target w.queue (optional w.pending) e

wait_child-none :
    (target : ℤ) (meanwhile : Kernel → Kernel) (p : ℕ) (k : Kernel)
    → (take_first target (held_by p k)).0 ≡ none
    → awaited target p k ≡ none
    → (wait_child target meanwhile p k).0 ≡ none
unfolding wait_child
wait_child-none target meanwhile p k e h = elim (Bool-cases (is_positive target)) [
  | inl b ↦
      let f : find_child p target k ≡ none = rw b at h in
      rw (b, wait_child, f) (pending_none target p k e)
  | inr b ↦ by_children (k.info p).children refl (rw b at h) b
]
  where
    by_children :
        (cs : List ℕ)
        → (k.info p).children ≡ cs
        → first_child cs ≡ none
        → is_positive target ≡ false
        → (wait_child target meanwhile p k).0 ≡ none
    by_children [] q f b = rw (b, wait_child, q) (pending_none target p k e)
    by_children (c ∷ cs) q f b = cc

wait_child-some :
    (target : ℤ) (meanwhile : Kernel → Kernel) (p : ℕ) (k : Kernel) (c : ℕ)
    → awaited target p k ≡ some c
    → (wait_child target meanwhile p k).0
      ≡ (take_first target
          (held_by p (collect_zombies (meanwhile (sleeping target p (named target c p k)))))).0
unfolding wait_child
wait_child-some target meanwhile p k c h = elim (Bool-cases (is_positive target)) [
  | inl b ↦
      let f : find_child p target k ≡ some c = rw b at h in
      rw (b, wait_child, f)
        (wait_asleep-result (some c) target meanwhile p (set_waiter (some c) (some p) k))
  | inr b ↦ by_children (k.info p).children refl (rw b at h) b
]
  where
    by_children :
        (cs : List ℕ)
        → (k.info p).children ≡ cs
        → first_child cs ≡ some c
        → is_positive target ≡ false
        → (wait_child target meanwhile p k).0
          ≡ (take_first target
              (held_by p (collect_zombies (meanwhile (sleeping target p (named target c p k)))))).0
    by_children [] q f b = cc
    by_children (d ∷ cs) q f b =
        let any : wait_child target meanwhile p k ≡ wait_asleep none target meanwhile p k =
          rw (b, wait_child, q) refl in
        ap (λ r. r.0) any ∙ rw b (wait_asleep-result none target meanwhile p k)

proc_wait_later :
    (target : ℤ) (meanwhile : Kernel → Kernel) (p : ℕ) (k : Kernel)
    → (collect_zombies k).sched.current ≡ some p
    → (consume_wait_result (any_child target) ((collect_zombies k).info p).results).0 ≡ none
    → proc_wait target meanwhile k ≡ wait_child (any_child target) meanwhile p (collect_zombies k)
unfolding proc_wait collect_zombies
proc_wait_later target meanwhile p k cur e =
    let found = take_result-none (any_child target) p (collect_zombies k) e in
    rw (cur, proc_wait)
      (subst
        (λ r.
          (elim r.0 [
            | none ↦ wait_child (any_child target) meanwhile p r.1
            | some x ↦ (some x, r.1)
          ])
          ≡ wait_child (any_child target) meanwhile p (collect_zombies k))
        (sym found) refl)

-- `proc_wait` of the current process, whatever the other processes do while it sleeps: a result that fits
-- is returned at once; otherwise none is without a child to wait for, and the first that fits after
-- the sleep with one.
pub proc_wait-WaitOutcome :
    (target : ℤ) (meanwhile : Kernel → Kernel) (p : ℕ) (k : Kernel)
    → (collect_zombies k).sched.current ≡ some p
    → WaitOutcome
        (any_child target)
        meanwhile
        p
        (collect_zombies k)
        (proc_wait target meanwhile k).0
unfolding proc_wait
proc_wait-WaitOutcome target meanwhile p k cur =
    let k' = collect_zombies k in
    let t = any_child target in
    let c = consume_wait_result-refines t (k'.info p).results in
    record {
      at_once = λ x e. rw (cur, proc_wait, c.0 ∙ e) refl;
      no_child = λ e h.
          ap (λ r. r.0) (proc_wait_later target meanwhile p k cur (c.0 ∙ e))
          ∙ wait_child-none t meanwhile p k' e h;
      slept = λ d e h.
          ap (λ r. r.0) (proc_wait_later target meanwhile p k cur (c.0 ∙ e))
          ∙ wait_child-some t meanwhile p k' d h;
    }
