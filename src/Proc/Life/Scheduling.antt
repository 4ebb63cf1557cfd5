-- ===== src/Proc/Life/Scheduling.antt =====
-- What the end of a process in Kernel/process/proc.c does to the scheduler.
use tp2_kernel.Base.{
  ℕ, ◌≡◌, ◌≢◌, refl, ap, sym, ◌∙◌, Bool, true, false, none, some, List, [], ◌∷◌, ==_self,
  Bool-cases, Option-cases, inl, inr, ℤ, pos,
}
use tp2_kernel.Sched.{ProcState, ready, running, blocked, new, exited, is_ready, set_pcb}
use tp2_kernel.Sched.Queues.{queued}
use tp2_kernel.Sched.Invariant.{Queues-out}
use tp2_kernel.Sched.Membership.{sched_remove-Left}
use tp2_kernel.Sched.Changes.{Sound, set_pcb-Sound, sched_remove-Sound, sched_enqueue-Sound}
use tp2_kernel.Proc.{
  Kernel, state_of, pid_of, is_reapable, is_exited, reap, collect_from, collect_zombies,
  proc_by_pid, release_slot, free_stack, remove_proc, enqueue_zombie, set_info,
}
use tp2_kernel.Proc.Life.{
  link_child, is_blocked, wake, rested, proc_unblock, wake_parent, waits_for, deliver,
  notify_parent_exit, orphan, unready, mark_exited, end_child, forget_child, detach_each,
  detach_children, bury, unlink_child,
}

pub reap_sched : (s : ℕ) (k : Kernel) → (reap s k).sched ≡ k.sched
unfolding reap release_slot free_stack
reap_sched s k = refl

collect_from_sched :
    (zs pending : List ℕ) (k : Kernel) → (collect_from zs pending k).sched ≡ k.sched
unfolding collect_from
collect_from_sched [] pending k = refl
collect_from_sched (s ∷ zs) pending k = elim (Bool-cases (is_reapable (k.info s))) [
  | inl d ↦ rw (d, collect_from) (collect_from_sched zs pending (reap s k) ∙ reap_sched s k)
  | inr d ↦ rw (d, collect_from) (collect_from_sched zs (s ∷ pending) k)
]

pub release_slot_sched : (s : ℕ) (k : Kernel) → (release_slot s k).sched ≡ k.sched
unfolding release_slot
release_slot_sched s k = refl

pub free_stack_sched : (s : ℕ) (k : Kernel) → (free_stack s k).sched ≡ k.sched
unfolding free_stack
free_stack_sched s k = refl

pub link_child_sched : (p c : ℕ) (k : Kernel) → (link_child p c k).sched ≡ k.sched
unfolding link_child
link_child_sched p c k = refl

pub collect_zombies_sched : (k : Kernel) → (collect_zombies k).sched ≡ k.sched
unfolding collect_zombies
collect_zombies_sched k = collect_from_sched k.zombies [] k

pub collect_zombies-Sound : (k : Kernel) → Sound k.sched → Sound (collect_zombies k).sched
collect_zombies-Sound k v = rw (collect_zombies_sched k) v

pub is_blocked_iff : (st : ProcState) → is_blocked st ≡ true → st ≡ blocked
is_blocked_iff blocked e = refl
is_blocked_iff new e = cc
is_blocked_iff ready e = cc
is_blocked_iff running e = cc
is_blocked_iff exited e = cc

pub wake-Sound :
    (s : ℕ) (k : Kernel) → Sound k.sched → is_blocked (state_of s k) ≡ true → Sound (wake s k).sched
wake-Sound s k v b =
    let at : state_of s k ≡ blocked = is_blocked_iff (state_of s k) b in
    let out =
      Queues-out k.sched s v.inv.queues (λ r. let no : blocked ≡ ready = sym at ∙ r in cc) in
    let framed = v.framed s (rw at refl) in
    let ni : k.sched.idle_proc ≢ some s = λ e. v.idle_awake s e at in
    let nc : k.sched.current ≢ some s = λ e. v.current_awake s e at in
    sched_enqueue-Sound s (set_pcb s (rested (k.sched.procs s)) k.sched)
      (set_pcb-Sound s (rested (k.sched.procs s)) k.sched v (record {
        out = out;
        framed = λ l. framed;
        base = v.inv.queues.base s;
        aside = inr (ni, nc);
      }))
      out (rw (==_self s) framed) ni nc

pub proc_unblock-Sound : (pid : ℤ) (k : Kernel) → Sound k.sched → Sound (proc_unblock pid k).1.sched
unfolding proc_unblock
proc_unblock-Sound pid k v =
    let k' = collect_zombies k in
    let v' = collect_zombies-Sound k v in
    elim (Option-cases (proc_by_pid pid k')) [
      | inl e ↦ rw (e, proc_unblock) v'
      | inr (s, e) ↦ elim (Bool-cases (is_blocked (state_of s k'))) [
        | inl b ↦ rw (e, proc_unblock, b) (wake-Sound s k' v' b)
        | inr b ↦ rw (e, proc_unblock, b) v'
      ]
    ]

wake_parent-Sound : (q pid : ℕ) (k : Kernel) → Sound k.sched → Sound (wake_parent q pid k).sched
unfolding wake_parent
wake_parent-Sound q pid k v = elim (Bool-cases (waits_for pid q k)) [
  | inl w ↦ rw w (
      proc_unblock-Sound (pos (pid_of q k))
        (set_info q (record (k.info q) { waiting_for = pos 0 }) k) v)
  | inr w ↦ rw w v
]

pub deliver_sched :
    (allocated : Bool) (q s : ℕ) (k : Kernel) → (deliver allocated q s k).sched ≡ k.sched
unfolding deliver unlink_child
deliver_sched allocated q s k = refl

pub notify_parent_exit-Sound :
    (allocated : Bool) (s : ℕ) (k : Kernel)
    → Sound k.sched
    → Sound (notify_parent_exit allocated s k).sched
unfolding notify_parent_exit
notify_parent_exit-Sound allocated s k v =
    let k' = set_info s (record (k.info s) { zombie_reapable = true; waiter_head = none }) k in
    elim (Option-cases (k.info s).parent_pid) [
      | inl e ↦ rw (e, notify_parent_exit) v
      | inr (p, e) ↦ elim (Option-cases (proc_by_pid (pos p) k')) [
        | inl f ↦ rw (e, notify_parent_exit, f) v
        | inr (q, f) ↦
            rw (e, notify_parent_exit, f)
              (wake_parent-Sound q _ (deliver allocated q s k')
                (rw (deliver_sched allocated q s k') v))
      ]
    ]

orphan_sched : (c : ℕ) (gs : List ℕ) (k : Kernel) → (orphan c gs k).sched ≡ k.sched
unfolding orphan
orphan_sched c [] k = refl
orphan_sched c (g ∷ gs) k = orphan_sched c gs (set_info g _ k)

-- A process that `sched_remove` is called for when it is READY is in no queue any more.
pub unready-Sound : (s : ℕ) (k : Kernel) → Sound k.sched → Sound (unready s k).sched
unready-Sound s k v = elim (Bool-cases (is_ready (state_of s k))) [
  | inl r ↦ rw r (sched_remove-Sound s k.sched v)
  | inr r ↦ rw r v
]

pub unready-out : (s : ℕ) (k : Kernel) → Sound k.sched → queued s (unready s k).sched.queue ≡ 0
unready-out s k v = elim (Bool-cases (is_ready (state_of s k))) [
  | inl r ↦ rw r (sched_remove-Left s k.sched v.inv).gone
  | inr r ↦ rw r (
      Queues-out k.sched s v.inv.queues
        (λ e. let no : true ≡ false = ap is_ready (sym e) ∙ r in cc))
]

pub mark_exited-Sound :
    (code : ℤ) (s : ℕ) (k : Kernel)
    → Sound k.sched
    → queued s k.sched.queue ≡ 0
    → Sound (mark_exited code s k).sched
unfolding mark_exited
mark_exited-Sound code s k v out = set_pcb-Sound s _ k.sched v (record {
  out = out;
  framed = λ l. cc;
  base = v.inv.queues.base s;
  aside = inl (λ e. cc, λ e. cc);
})

end_child-Sound : (c : ℕ) (k : Kernel) → Sound k.sched → Sound (end_child c k).sched
unfolding end_child remove_proc enqueue_zombie
end_child-Sound c k v =
    rw (orphan_sched c _ _)
      (mark_exited-Sound (pos 0) c (unready c k) (unready-Sound c k v) (unready-out c k v))

detach_each-Sound :
    (p : ℕ) (cs : List ℕ) (k : Kernel) → Sound k.sched → Sound (detach_each p cs k).sched
unfolding detach_each forget_child
detach_each-Sound p [] k v = v
detach_each-Sound p (c ∷ cs) k v = elim (Bool-cases (is_exited (state_of c k))) [
  | inl e ↦ rw (e, detach_each) (detach_each-Sound p cs (forget_child p c k) v)
  | inr e ↦ rw (e, detach_each) (detach_each-Sound p cs (end_child c k) (end_child-Sound c k v))
]

pub bury-Sound :
    (allocated : Bool) (s : ℕ) (k : Kernel) → Sound k.sched → Sound (bury allocated s k).sched
unfolding bury detach_children remove_proc enqueue_zombie
bury-Sound allocated s k v =
    notify_parent_exit-Sound allocated s (remove_proc s (detach_children s k))
      (detach_each-Sound s (k.info s).children (set_info s _ k) v)
