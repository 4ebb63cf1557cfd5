-- ===== src/Proc/Life/Telling.antt =====
-- How `notify_parent_exit` of Kernel/process/proc.c tells a parent that a child has ended.
use tp2_kernel.Base.{
  ℕ, ◌≡◌, refl, ap, fun_ext, ◌∙◌, Bool, true, false, ◌&&◌, none, some, List, [], ◌∷◌, ◌++◌, arith,
  ◌==◌, ==_self, count, Bool-cases, Option-cases, inl, inr, ℤ, pos, negsuc, zero, suc,
}
use tp2_kernel.Sched.{unlink}
use tp2_kernel.WaitResults.Refinement.{held, held-push_wait_result}
use tp2_kernel.Proc.{
  Info, Kernel, set_info, pid_of, has_pid, first_slot, max_procs, proc_by_pid, collect_zombies,
}
use tp2_kernel.Proc.Zombies.{collect_zombies-Collected}
use tp2_kernel.Proc.Life.{
  result_of, deliver, unlink_child, waits_for, wake_parent, proc_unblock, is_blocked,
  notify_parent_exit,
}

-- A process that is no zombie keeps its fields when another is woken.
proc_unblock_info :
    (pid : ℤ) (k : Kernel) (t : ℕ)
    → count t k.zombies ≡ 0
    → (proc_unblock pid k).1.info t ≡ k.info t
unfolding proc_unblock
proc_unblock_info pid k t h =
    let kept = (collect_zombies-Collected k).kept t (inl h) in
    elim (Option-cases (proc_by_pid pid (collect_zombies k))) [
      | inl e ↦ rw (e, proc_unblock) kept
      | inr (s, e) ↦ elim (Bool-cases (is_blocked ((collect_zombies k).sched.procs s).state)) [
        | inl b ↦ rw (e, proc_unblock, b) kept
        | inr b ↦ rw (e, proc_unblock, b) kept
      ]
    ]

-- The fields of a process but for what it waits for.
abbrev pub but_waiting : Info → Info
but_waiting i = record i { waiting_for = pos 0 }

wake_parent_info :
    (q pid : ℕ) (k : Kernel) (t : ℕ)
    → count t k.zombies ≡ 0
    → but_waiting ((wake_parent q pid k).info t) ≡ but_waiting (k.info t)
unfolding wake_parent
wake_parent_info q pid k t h = elim (Bool-cases (waits_for pid q k)) [
  | inr w ↦ rw (w, wake_parent) refl
  | inl w ↦
      let k' = set_info q (record (k.info q) { waiting_for = pos 0 }) k in
      let kept = proc_unblock_info (pos (pid_of q k)) k' t h in
      rw (w, wake_parent) (ap but_waiting kept ∙ own q t)
]
  where
    own :
        (q t : ℕ)
        → but_waiting ((set_info q (record (k.info q) { waiting_for = pos 0 }) k).info t)
          ≡ but_waiting (k.info t)
    own q t = elim (Bool-cases (q == t)) [
      | inl e ↦ let same : q ≡ t = ground arith in rw e (ap (λ u. but_waiting (k.info u)) same)
      | inr e ↦ rw e refl
    ]

-- What `notify_parent_exit` of the process in slot `s` does at its parent in slot `q`.
pub record Told (s q : ℕ) (k k' : Kernel) : Type 0 where
  pub result : held (k'.info q).results ≡ held (k.info q).results ++ result_of s k ∷ []
  pub unlinked :
      (front back : List ℕ)
      → (k.info q).children ≡ front ++ s ∷ back
      → count s front ≡ 0
      → (k'.info q).children ≡ front ++ back
  pub stranger : count s (k.info q).children ≡ 0 → (k'.info q).children ≡ (k.info q).children
  pub alone : (k'.info s).parent_pid ≡ none
  pub reapable : (k'.info s).zombie_reapable ≡ true

unlink-first :
    (s : ℕ) (front back : List ℕ) → count s front ≡ 0 → unlink s (front ++ s ∷ back) ≡ front ++ back
unfolding unlink
unlink-first s [] back z = rw (==_self s) refl
unlink-first s (c ∷ front) back z = elim (Bool-cases (c == s)) [
  | inl e ↦ absurd (ground arith)
  | inr e ↦ rw e (ap (λ l. c ∷ l) (unlink-first s front back (ground (arith, e))))
]

unlink-missing : (s : ℕ) (l : List ℕ) → count s l ≡ 0 → unlink s l ≡ l
unfolding unlink
unlink-missing s [] z = refl
unlink-missing s (c ∷ l) z = elim (Bool-cases (c == s)) [
  | inl e ↦ absurd (ground arith)
  | inr e ↦ rw e (ap (λ t. c ∷ t) (unlink-missing s l (ground (arith, e))))
]

deliver-Told :
    (s q : ℕ) (k : Kernel)
    → (s == q) ≡ false
    → (k.info q).results.pending ≡ none
    → Told s q k (
        deliver true q s
          (set_info s (record (k.info s) { zombie_reapable = true; waiter_head = none }) k))
unfolding deliver unlink_child
deliver-Told s q k ne e =
    let qs : (q == s) ≡ false = ground (arith, ne) in
    record {
      result = rw (ne, ==_self q, qs, ==_self s) (held-push_wait_result _ (k.info q).results e);
      unlinked = λ front back c z. rw (ne, ==_self q) (rw c (unlink-first s front back z));
      stranger = λ z. rw (ne, ==_self q) (unlink-missing s (k.info q).children z);
      alone = rw (==_self s) refl;
      reapable = rw (==_self s, qs) refl;
    }

-- The fields of a process changed, with the mark of its slot kept: every pid finds the same slot.
proc_by_pid_same :
    (pid : ℤ) (s : ℕ) (i : Info) (k : Kernel)
    → i.used ≡ (k.info s).used
    → proc_by_pid pid (set_info s i k) ≡ proc_by_pid pid k
unfolding proc_by_pid
proc_by_pid_same (negsuc n) s i k h = refl
proc_by_pid_same (pos zero) s i k h = refl
proc_by_pid_same (pos (suc n)) s i k h =
    let same : has_pid (suc n) (set_info s i k) ≡ has_pid (suc n) k = fun_ext λ t.
      elim (Bool-cases (s == t)) [
        | inl e ↦
            let at : s ≡ t = ground arith in
            rw e (ap (λ b. b && (pid_of t k == suc n)) (h ∙ ap (λ u. (k.info u).used) at))
        | inr e ↦ rw e refl
      ] in
    ap (first_slot max_procs 0) same

deliver_zombies :
    (allocated : Bool) (q s : ℕ) (k : Kernel) → (deliver allocated q s k).zombies ≡ k.zombies
unfolding deliver unlink_child
deliver_zombies allocated q s k = refl

-- Waking the parent changes nothing of that.
wake_parent-Told :
    (s q pid : ℕ) (k k' : Kernel)
    → count s k'.zombies ≡ 0
    → count q k'.zombies ≡ 0
    → Told s q k k'
    → Told s q k (wake_parent q pid k')
wake_parent-Told s q pid k k' zs zq told =
    let at_s = wake_parent_info q pid k' s zs in
    let at_q = wake_parent_info q pid k' q zq in
    record {
      result = ap (λ i. held i.results) at_q ∙ told.result;
      unlinked = λ front back c z. ap (λ i. i.children) at_q ∙ told.unlinked front back c z;
      stranger = λ z. ap (λ i. i.children) at_q ∙ told.stranger z;
      alone = ap (λ i. i.parent_pid) at_s ∙ told.alone;
      reapable = ap (λ i. i.zombie_reapable) at_s ∙ told.reapable;
    }

-- The end of a process that is no zombie yet, whose parent is another process and no zombie, when the
-- result gets its node and none waits without one: the parent holds the pid and the exit code behind
-- the results that it held, and its list of children is the one of before without the process, the other
-- children in their order; the process has no parent and may be collected.
pub notify_parent_exit-Told :
    (s q pid : ℕ) (k : Kernel)
    → (k.info s).parent_pid ≡ some pid
    → proc_by_pid (pos pid) k ≡ some q
    → (s == q) ≡ false
    → (k.info q).results.pending ≡ none
    → count s k.zombies ≡ 0
    → count q k.zombies ≡ 0
    → Told s q k (notify_parent_exit true s k)
unfolding notify_parent_exit
notify_parent_exit-Told s q pid k parent found ne e zs zq =
    let i : Info = record (k.info s) { zombie_reapable = true; waiter_head = none } in
    let k₁ = set_info s i k in
    let k₂ = deliver true q s k₁ in
    let same = proc_by_pid_same (pos pid) s i k refl ∙ found in
    rw (parent, notify_parent_exit, same)
      (wake_parent-Told s q _ k k₂ (ap (count s) (deliver_zombies true q s k₁) ∙ zs)
        (ap (count q) (deliver_zombies true q s k₁) ∙ zq) (deliver-Told s q k ne e))
