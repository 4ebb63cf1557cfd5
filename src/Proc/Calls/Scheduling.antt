-- ===== src/Proc/Calls/Scheduling.antt =====
-- What the operations of Kernel/process/proc.c do to the scheduler.
use tp2_kernel.Base.{
  ℕ, ◌≡◌, ◌≢◌, refl, Bool, false, not, ◌&&◌, Option, none, some, arith, Bool-cases, Option-cases,
  inl, inr, ℤ, pos,
}
use tp2_kernel.Sched.{is_ready, is_slot}
use tp2_kernel.Sched.Invariant.{Queues-out}
use tp2_kernel.Sched.Changes.{Sound}
use tp2_kernel.Sem.Handles.{sem_cleanup_process_handles}
use tp2_kernel.Proc.{
  Kernel, state_of, pid_of, first_slot, max_procs, collect_zombies, proc_by_pid,
  proc_set_foreground, mark_front,
}
use tp2_kernel.Proc.Life.{unready, mark_exited, drop_pending, bury}
use tp2_kernel.Proc.Life.Scheduling.{
  collect_zombies-Sound, unready-Sound, unready-out, mark_exited-Sound, bury-Sound,
}
use tp2_kernel.Proc.Calls.{
  leave_sems, free_tty, is_alive, give_back, proc_exit, to_shell, is_shell, kill_slot, proc_kill,
}

mark_front_sched : (o : Option ℕ) (k : Kernel) → (mark_front o k).sched ≡ k.sched
mark_front_sched none k = refl
mark_front_sched (some s) k = refl

pub proc_set_foreground_sched : (pid : ℕ) (k : Kernel) → (proc_set_foreground pid k).sched ≡ k.sched
unfolding proc_set_foreground
proc_set_foreground_sched pid k = mark_front_sched (proc_by_pid (pos pid) k) k

to_shell_sched : (k : Kernel) → (to_shell k).sched ≡ k.sched
unfolding to_shell
to_shell_sched k = elim (Option-cases (first_slot max_procs 0 (is_shell k))) [
  | inl e ↦ rw (e, to_shell) refl
  | inr (s, e) ↦ rw (e, to_shell) (proc_set_foreground_sched (pid_of s k) k)
]

give_back_sched :
    (s : ℕ) (other : Kernel → Kernel) (k : Kernel)
    → (other k).sched ≡ k.sched
    → (give_back s other k).sched ≡ k.sched
unfolding give_back
give_back_sched s other k h = elim (Bool-cases (k.info s).fg) [
  | inr f ↦ rw (f, give_back) refl
  | inl f ↦ elim (Option-cases (k.info s).parent_pid) [
    | inl e ↦ rw (f, give_back, e) h
    | inr (p, e) ↦ elim (Bool-cases (is_alive (proc_by_pid (pos p) k) k)) [
      | inl a ↦ rw (f, give_back, e, a) (proc_set_foreground_sched p k)
      | inr a ↦ rw (f, give_back, e, a) h
    ]
  ]
]

pub proc_exit-Sound :
    (allocated : Bool) (code : ℤ) (k : Kernel)
    → Sound k.sched
    → Sound (proc_exit allocated code k).sched
unfolding proc_exit
proc_exit-Sound allocated code k v =
    let k' = collect_zombies k in
    let v' = collect_zombies-Sound k v in
    elim (Option-cases k'.sched.current) [
      | inl e ↦ rw (e, proc_exit) v'
      | inr (s, e) ↦ elim (Bool-cases (is_slot s k'.sched.idle_proc)) [
        | inl i ↦ rw (e, proc_exit, i) v'
        | inr i ↦ rw (e, proc_exit, i) (at_exit s e)
      ]
    ]
  where
    at_exit :
        (s : ℕ)
        → (collect_zombies k).sched.current ≡ some s
        → let k₁ = leave_sems s (collect_zombies k) in
          let k₂ = record k₁ { sems = sem_cleanup_process_handles (pid_of s k₁) k₁.sems } in
          Sound (bury allocated s (mark_exited code s (give_back s free_tty k₂))).sched
    at_exit s e =
        let k' = collect_zombies k in
        let v' = collect_zombies-Sound k v in
        let k₁ = leave_sems s k' in
        let k₂ : Kernel = record k₁ { sems = sem_cleanup_process_handles (pid_of s k₁) k₁.sems } in
        let k₃ = give_back s free_tty k₂ in
        let same : k₃.sched ≡ k'.sched = give_back_sched s free_tty k₂ refl in
        let out = Queues-out k'.sched s v'.inv.queues (v'.inv.current_out s e) in
        bury-Sound allocated s (mark_exited code s k₃)
          (mark_exited-Sound code s k₃ (rw same v') (rw same out))

kill_slot-Sound :
    (allocated : Bool) (s : ℕ) (k : Kernel) → Sound k.sched → Sound (kill_slot allocated s k).sched
unfolding kill_slot
kill_slot-Sound allocated s k v =
    let k' = give_back s to_shell (leave_sems s k) in
    let v' : Sound k'.sched =
      rw (give_back_sched s to_shell (leave_sems s k) (to_shell_sched (leave_sems s k))) v in
    elim (Bool-cases (not (is_ready (state_of s k')) && is_slot s k'.sched.current)) [
      | inl c ↦ rw (c, kill_slot) (proc_exit-Sound allocated (pos 0) k' v')
      | inr c ↦
          rw (c, kill_slot)
            (collect_zombies-Sound _ (
              bury-Sound allocated s (drop_pending s (mark_exited (pos 0) s (unready s k'))) (
                mark_exited-Sound (pos 0) s (unready s k') (unready-Sound s k' v')
                  (unready-out s k' v'))))
    ]

pub proc_kill-Sound :
    (allocated : Bool) (pid : ℤ) (k : Kernel)
    → Sound k.sched
    → Sound (proc_kill allocated pid k).1.sched
unfolding proc_kill
proc_kill-Sound allocated pid k v =
    let k' = collect_zombies k in
    let v' = collect_zombies-Sound k v in
    elim (Option-cases (proc_by_pid pid k')) [
      | inl e ↦ rw (e, proc_kill) v'
      | inr (s, e) ↦ elim (Bool-cases (is_slot s k'.sched.idle_proc)) [
        | inl i ↦ rw (e, proc_kill, i) v'
        | inr i ↦ rw (e, proc_kill, i) (kill_slot-Sound allocated s k' v')
      ]
    ]

pub is_slot_iff : (s : ℕ) (o : Option ℕ) → is_slot s o ≡ false → o ≢ some s
is_slot_iff s none e = λ n. cc
is_slot_iff s (some t) e = λ n. ground (arith, e, n)
