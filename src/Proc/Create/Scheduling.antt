-- ===== src/Proc/Create/Scheduling.antt =====
-- What `proc_create` of Kernel/process/proc.c does to the scheduler.
use tp2_kernel.Base.{
  ℕ, ◌≤◌, ◌≡◌, ◌≢◌, refl, Bool, true, false, not, Option, none, some, List, arith, ==_self,
  Option-cases, inl, inr, ℤ,
}
use tp2_kernel.Sched.{Pcb, Sched, ready, new, set_pcb}
use tp2_kernel.Sched.Queues.{queued}
use tp2_kernel.Sched.Invariant.{Queues-out}
use tp2_kernel.Sched.Changes.{Sound, set_pcb-Sound, sched_enqueue-Sound}
use tp2_kernel.Fd.{fd_table_create}
use tp2_kernel.Proc.{
  Kernel, first_slot, max_procs, blank, blank_pcb, collect_zombies, allocate_slot, insert_proc,
  set_info, set_proc,
}
use tp2_kernel.Proc.Life.Scheduling.{
  collect_zombies-Sound, collect_zombies_sched, release_slot_sched, free_stack_sched,
  link_child_sched,
}
use tp2_kernel.Proc.Calls.{clamp}
use tp2_kernel.Proc.Calls.Nice.{clamp-le}
use tp2_kernel.Proc.Create.{
  setup_stack, new_pcb, fill, admit, give_stack, give_fds, link_parent, create_in, proc_create,
}

-- The slot that `allocate_slot` finds.
abbrev pub free_slot : Kernel → Option ℕ
free_slot k = first_slot max_procs 0 (λ s. not (k.info s).used)

-- A slot that the scheduler does not know: not READY, and neither the current nor the idle process.
pub record Unknown (s : ℕ) (k : Sched) : Type 0 where
  pub not_ready : (k.procs s).state ≢ ready
  pub not_current : k.current ≢ some s
  pub not_idle : k.idle_proc ≢ some s

-- A sound scheduler and a slot that stands in none of its lists.
record Fresh (s : ℕ) (k : Sched) : Type 0 where
  sound : Sound k
  out : queued s k.queue ≡ 0
  not_current : k.current ≢ some s
  not_idle : k.idle_proc ≢ some s

-- The fields of a process that is still NEW, or those of one that is neither READY nor waits.
set_new-Fresh :
    (s : ℕ) (p : Pcb) (k : Sched)
    → Fresh s k
    → p.state ≡ new
    → p.base_priority ≤ 3
    → Fresh s (set_pcb s p k)
set_new-Fresh s p k v e b = record {
  sound = set_pcb-Sound s p k v.sound (record {
    out = v.out;
    framed = λ l. let no : false ≡ true = rw e at l in cc;
    base = b;
    aside = inr (v.not_idle, v.not_current);
  });
  out = v.out;
  not_current = v.not_current;
  not_idle = v.not_idle;
}

link_parent_sched : (o : Option ℕ) (s : ℕ) (k : Kernel) → (link_parent o s k).sched ≡ k.sched
link_parent_sched none s k = refl
link_parent_sched (some p) s k = link_child_sched p s k

admit-Sound :
    (s t : ℕ) (fg : Bool) (k : Kernel)
    → Fresh s k.sched
    → (k.sched.procs s).kframe ≢ 0
    → Sound (admit s t fg k).1.sched
unfolding admit insert_proc
admit-Sound s t fg k v framed =
    rw (link_parent_sched k.sched.current s (record k { fds = give_fds t k.sched.current k k.fds }))
      (sched_enqueue-Sound s k.sched v.sound v.out framed v.not_idle v.not_current)

create_in-Sound :
    (trampoline : ℕ) (stack table : Option ℕ) (fg : Bool) (s : ℕ) (k : Kernel)
    → ((base : ℕ) → stack ≡ some base → (setup_stack trampoline s base).0 ≢ 0)
    → Fresh s k.sched
    → (k.sched.procs s).state ≡ new
    → (k.sched.procs s).base_priority ≤ 3
    → Sound (create_in trampoline stack table fg s k).1.sched
unfolding create_in
create_in-Sound trampoline none table fg s k frame v n b = rw (release_slot_sched s k) v.sound
create_in-Sound trampoline (some base) table fg s k frame v n b =
    let k' = give_stack trampoline s base k in
    let v' : Fresh s k'.sched = set_new-Fresh s _ k.sched v n b in
    elim (Option-cases (fd_table_create table k'.fds).0) [
      | inl e ↦ rw (e, create_in) (rw (release_slot_sched s _, free_stack_sched s _) v'.sound)
      | inr (t, e) ↦ rw (e, create_in) (admit-Sound s t fg _ v' (rw (==_self s) (frame base refl)))
    ]

allocate_slot-none : (k : Kernel) → free_slot k ≡ none → allocate_slot k ≡ (none, k)
unfolding allocate_slot
allocate_slot-none k e = rw (e, allocate_slot) refl

allocate_slot-some :
    (s : ℕ) (k : Kernel)
    → free_slot k ≡ some s
    → allocate_slot k ≡ (some s, set_info s (record blank { used = true }) (set_proc s blank_pcb k))
unfolding allocate_slot
allocate_slot-some s k e = rw (e, allocate_slot) refl

-- A slot of the table that the scheduler does not know is filled and enqueued.
fill-Sound :
    (trampoline : ℕ) (stack table : Option ℕ) (prio : ℤ) (fg : Bool) (name : List ℕ) (s : ℕ)
    (k : Kernel)
    → ((base : ℕ) → stack ≡ some base → (setup_stack trampoline s base).0 ≢ 0)
    → Fresh s k.sched
    → Sound (create_in trampoline stack table fg s (fill s name (clamp prio) fg k)).1.sched
unfolding fill
fill-Sound trampoline stack table prio fg name s k frame v =
    create_in-Sound trampoline stack table fg s (fill s name (clamp prio) fg k) frame
      (set_new-Fresh s (new_pcb k.next_pid (clamp prio)) k.sched v refl (clamp-le prio))
      (rw (==_self s) refl) (rw (==_self s) (clamp-le prio))

pub proc_create-Sound :
    (trampoline : ℕ) (stack table : Option ℕ) (prio : ℤ) (fg : Bool) (name : List ℕ) (k : Kernel)
    → ((s : ℕ) → free_slot (collect_zombies k) ≡ some s → Unknown s k.sched)
    → ((s base : ℕ) → stack ≡ some base → (setup_stack trampoline s base).0 ≢ 0)
    → Sound k.sched
    → Sound (proc_create trampoline stack table prio fg name k).1.sched
unfolding proc_create
proc_create-Sound trampoline stack table prio fg name k unknown frame v =
    let k' = collect_zombies k in
    let v' = collect_zombies-Sound k v in
    elim (Option-cases (free_slot k')) [
      | inl e ↦ rw (allocate_slot-none k' e, proc_create) (rw (allocate_slot-none k' e) v')
      | inr (s, e) ↦
          let u : Unknown s k'.sched = rw (collect_zombies_sched k) (unknown s e) in
          rw (allocate_slot-some s k' e, proc_create)
            (rw (allocate_slot-some s k' e) (
              fill-Sound trampoline stack table prio fg name s
                (set_info s (record blank { used = true }) (set_proc s blank_pcb k')) (frame s)
                (set_new-Fresh s blank_pcb k'.sched
                  (record {
                    sound = v';
                    out = Queues-out k'.sched s v'.inv.queues u.not_ready;
                    not_current = u.not_current;
                    not_idle = u.not_idle;
                  })
                  refl (omega arith))))
    ]
