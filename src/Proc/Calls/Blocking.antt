-- ===== src/Proc/Calls/Blocking.antt =====
-- What `proc_block` of Kernel/process/proc.c does to the scheduler.
use tp2_kernel.Base.{
  ||_neither, ℕ, ◌≡◌, ◌≢◌, refl, ap, sym, ◌∙◌, true, false, ◌||◌, Option, none, some, arith, ◌==◌,
  if◌then◌else◌, Bool-cases, Option-cases, inl, inr, ℤ, is_positive,
}
use tp2_kernel.Sched.{ProcState, new, exited, ready, running, blocked, is_ready, is_slot}
use tp2_kernel.Sched.Changes.{Sound, Fewer, is_live, sched_remove-Fewer, set_pcb-Sound}
use tp2_kernel.Proc.{Kernel, state_of, is_exited, collect_zombies, proc_by_pid}
use tp2_kernel.Proc.Life.{is_blocked, unready}
use tp2_kernel.Proc.Life.Scheduling.{
  collect_zombies-Sound, collect_zombies_sched, unready-Sound, unready-out,
}
use tp2_kernel.Proc.Calls.Scheduling.{is_slot_iff}
use tp2_kernel.Proc.Calls.{halted, block_slot, proc_block}

unready-Fewer : (s : ℕ) (k : Kernel) → Fewer k.sched (unready s k).sched
unready-Fewer s k = elim (Bool-cases (is_ready (state_of s k))) [
  | inl r ↦ rw r (sched_remove-Fewer s k.sched)
  | inr r ↦
      rw r (record { procs = refl; idle = refl; current = λ c e. e; level = λ t p. omega arith })
]

-- A live process that is neither idle nor current is blocked.
block_slot-Sound :
    (s : ℕ) (k : Kernel)
    → is_slot s k.sched.idle_proc ≡ false
    → is_slot s k.sched.current ≡ false
    → is_live (state_of s k) ≡ true
    → Sound k.sched
    → Sound (block_slot s k).sched
block_slot-Sound s k i c live v =
    let u = unready s k in
    let w = unready-Sound s k v in
    let f = unready-Fewer s k in
    let same : u.sched.procs s ≡ k.sched.procs s = ap (λ p. p s) f.procs in
    rw c (
      set_pcb-Sound s (halted (u.sched.procs s)) u.sched w (record {
        out = unready-out s k v;
        framed = λ l. w.framed s (ap (λ p. is_live p.state) same ∙ live);
        base = w.inv.queues.base s;
        aside = inr (
          λ e. is_slot_iff s k.sched.idle_proc i (sym f.idle ∙ e),
          λ e. is_slot_iff s k.sched.current c (f.current s e),
        );
      }))

-- What `proc_block` looks for.
abbrev pub block_target : ℤ → Kernel → Option ℕ
block_target pid k = if is_positive pid then proc_by_pid pid k else k.sched.current

is_slot-other : (s : ℕ) (o : Option ℕ) → o ≢ some s → is_slot s o ≡ false
is_slot-other s none e = refl
is_slot-other s (some t) e = elim (Bool-cases (s == t)) [
  | inl y ↦ let same : s ≡ t = ground arith in absurd (e (ap some (sym same)))
  | inr y ↦ y
]

is_live_iff : (st : ProcState) → st ≢ new → is_exited st ≡ false → is_live st ≡ true
is_live_iff new n e = absurd (n refl)
is_live_iff exited n e = cc
is_live_iff ready n e = refl
is_live_iff running n e = refl
is_live_iff blocked n e = refl

-- A process blocks another one, which is not new.
pub proc_block-Sound :
    (pid : ℤ) (k : Kernel)
    → ((s : ℕ)
        → block_target pid (collect_zombies k) ≡ some s
        → (state_of s k ≢ new) × (k.sched.current ≢ some s))
    → Sound k.sched
    → Sound (proc_block pid k).1.sched
unfolding proc_block
proc_block-Sound pid k other v =
    let k' = collect_zombies k in
    let v' = collect_zombies-Sound k v in
    elim (Option-cases (block_target pid k')) [
      | inl e ↦ rw (e, proc_block) v'
      | inr (s, e) ↦ elim (Bool-cases (is_slot s k'.sched.idle_proc || is_exited (state_of s k'))) [
        | inl x ↦ rw (e, proc_block, x) v'
        | inr x ↦ elim (Bool-cases (is_blocked (state_of s k'))) [
          | inl b ↦ rw (e, proc_block, x, b) v'
          | inr b ↦
              rw (e, proc_block, x, b)
                (let no = ||_neither (is_slot s k'.sched.idle_proc) (is_exited (state_of s k')) x in
                  let o = other s e in
                  let new' : state_of s k' ≢ new = rw (collect_zombies_sched k) o.0 in
                  let far : k'.sched.current ≢ some s = rw (collect_zombies_sched k) o.1 in
                  block_slot-Sound s k' no.0 (is_slot-other s k'.sched.current far)
                    (is_live_iff (state_of s k') new' no.1) v')
        ]
      ]
    ]
