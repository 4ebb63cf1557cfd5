-- ===== src/Proc/Foreground.antt =====
-- Which process is in front: `proc_by_pid`, `proc_set_foreground` and `proc_get_foreground_pid` of
-- Kernel/process/proc.c.
use tp2_kernel.Base.{
  &&_both, ℕ, zero, suc, ◌+◌, ◌<◌, ◌≤◌, ◌≡◌, refl, ap, sym, ◌∙◌, Bool, true, false, not, ◌&&◌,
  Option, none, some, arith, lt→ltb, ltb, ◌==◌, ==_self, Bool-cases, Option-cases, inl, inr, pos,
}
use tp2_kernel.Tty.Input.{fg_pid-tty_set_foreground}
use tp2_kernel.Proc.Calls.Scheduling.{proc_set_foreground_sched}
use tp2_kernel.Proc.{
  Kernel, first_slot, max_procs, pid_of, has_pid, proc_by_pid, mark_front, unmark,
  proc_set_foreground, proc_get_foreground_pid,
}

-- What the loop over the slots finds: the first one with the test, or none has it.
abbrev pub Found : (ℕ → Bool) → ℕ → ℕ → Option ℕ → Type 0
Found test i n none = (t : ℕ) → i ≤ t → t < i + n → test t ≡ false
Found test i n (some s) =
    (test s ≡ true) × (i ≤ s) × (s < i + n) × ((t : ℕ) → i ≤ t → t < s → test t ≡ false)

pub first_slot-Found : (n i : ℕ) (test : ℕ → Bool) → Found test i n (first_slot n i test)
unfolding first_slot
first_slot-Found zero i test = λ t a b. absurd (omega arith)
first_slot-Found (suc n) i test =
    let ih = first_slot-Found n (i + 1) test in
    elim (Bool-cases (test i)) [
      | inl e ↦ rw e (e, omega arith, omega arith, λ t a b. absurd (omega arith))
      | inr e ↦ elim (Option-cases (first_slot n (i + 1) test)) [
        | inl f ↦
            let none_behind : Found test (i + 1) n none = rw f at ih in
            rw (e, f)
              λ t a b. elim (Bool-cases (i == t)) [
                | inl q ↦ let same : i ≡ t = ground arith in ap test (sym same) ∙ e
                | inr q ↦ none_behind t (ground arith) (omega arith)
              ]
        | inr (s, f) ↦
            let there : Found test (i + 1) n (some s) = rw f at ih in
            rw (e, f)
              (
                there.0,
                omega (arith, there.1),
                omega (arith, there.2),
                λ t a b. elim (Bool-cases (i == t)) [
                  | inl q ↦ let same : i ≡ t = ground arith in ap test (sym same) ∙ e
                  | inr q ↦ there.3 t (ground arith) b
                ],
              )
      ]
    ]

-- `proc_by_pid` of a pid above 0 finds the first used slot with the pid, or there is none.
pub proc_by_pid-Found :
    (n : ℕ) (k : Kernel) → Found (has_pid (suc n) k) 0 max_procs (proc_by_pid (pos (suc n)) k)
unfolding proc_by_pid
proc_by_pid-Found n k = first_slot-Found max_procs 0 (has_pid (suc n) k)

-- What `proc_set_foreground` leaves: the terminal belongs to the pid, every process that is marked as
-- in front has the pid, the process found under the pid is marked, nothing but marks changes, and
-- the pid is the answer of `proc_get_foreground_pid`.
pub record Fronted (pid : ℕ) (k k' : Kernel) : Type 0 where
  pub only :
      (t : ℕ) → t < max_procs → (k'.info t).used ≡ true → (k'.info t).fg ≡ true → pid_of t k' ≡ pid
  pub chosen : (s : ℕ) → proc_by_pid (pos pid) k ≡ some s → (k'.info s).fg ≡ true
  pub rest : (t : ℕ) → record (k'.info t) { fg = false } ≡ record (k.info t) { fg = false }
  pub sched : k'.sched ≡ k.sched
  pub answer : proc_get_foreground_pid k' ≡ some pid

only_front :
    (pid : ℕ) (k : Kernel) (t : ℕ)
    → t < max_procs
    → (unmark pid k t).used ≡ true
    → (unmark pid k t).fg ≡ true
    → pid_of t k ≡ pid
only_front pid k t lt used fg = elim (Bool-cases (pid_of t k == pid)) [
  | inl e ↦ ground arith
  | inr e ↦ elim (Bool-cases (k.info t).used) [
    | inl u ↦ let no : false ≡ true = rw (u, lt→ltb t max_procs lt, e) at fg in cc
    | inr u ↦ let no : false ≡ true = rw u at used in cc
  ]
]

unmark_rest :
    (pid : ℕ) (k : Kernel) (t : ℕ)
    → record (unmark pid k t) { fg = false } ≡ record (k.info t) { fg = false }
unmark_rest pid k t =
    elim (Bool-cases ((k.info t).used && (ltb t max_procs && not (pid_of t k == pid)))) [
      | inl c ↦ rw c refl
      | inr c ↦ rw c refl
    ]

mark_front_rest :
    (o : Option ℕ) (k : Kernel) (t : ℕ)
    → record ((mark_front o k).info t) { fg = false } ≡ record (k.info t) { fg = false }
mark_front_rest none k t = refl
mark_front_rest (some s) k t = elim (Bool-cases (s == t)) [
  | inl e ↦
      let same : s ≡ t = ground arith in rw e (ap (λ u. record (k.info u) { fg = false }) same)
  | inr e ↦ rw e refl
]

-- `proc_set_foreground` of any pid above 0, whether a process has it or not.
pub proc_set_foreground-Fronted :
    (n : ℕ) (k : Kernel) → Fronted (suc n) k (proc_set_foreground (suc n) k)
unfolding proc_set_foreground proc_get_foreground_pid
proc_set_foreground-Fronted n k =
    let k₁ = mark_front (proc_by_pid (pos (suc n)) k) k in
    record {
      only = λ t lt used fg. only_front (suc n) k₁ t lt used fg;
      chosen = λ s e.
          let h : Found (has_pid (suc n) k) 0 max_procs (some s) =
            rw e at (proc_by_pid-Found n k) in
          let both = &&_both (k.info s).used (pid_of s k == suc n) h.0 in
          rw (e, ==_self s, both.1, lt→ltb s max_procs h.2, both.0) refl;
      rest = λ t. unmark_rest (suc n) k₁ t ∙ mark_front_rest (proc_by_pid (pos (suc n)) k) k t;
      sched = proc_set_foreground_sched (suc n) k;
      answer = rw (fg_pid-tty_set_foreground (some (suc n)) k₁.tty) refl;
    }
