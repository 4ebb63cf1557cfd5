-- ===== src/Sched/Changes.antt =====
-- What the operations of Kernel/process/proc.c do to the scheduler: the invariant of the ready queues
-- with what those operations rely on besides.
use tp2_kernel.Base.{
  ℕ, ◌≤◌, ◌≡◌, ◌≢◌, refl, ap, sym, subst, ◌∙◌, Bool, true, false, not, Option, none, some, List,
  arith, ltb, ◌==◌, if◌then◌else◌, count, update, Bool-cases, inl, inr, ◌⊎◌,
}
use tp2_kernel.Sched.{
  Pcb, Sched, ProcState, new, ready, running, blocked, exited, is_ready, is_slot, set_pcb, q_push,
  q_remove, sched_remove, unlink, sched_enqueue, clamp_prio, time_slice_ticks,
}
use tp2_kernel.Sched.Queues.{queued}
use tp2_kernel.Sched.Promotion.{count-le-queued}
use tp2_kernel.Sched.Invariant.{Waiting, Inv}
use tp2_kernel.Sched.Membership.{sched_enqueue-Inv, count-unlink}

-- A process that is neither being made nor ended.
abbrev pub is_live : ProcState → Bool
is_live new = false
is_live exited = false
is_live _ = true

-- Between two ticks: the queues are in order, every live process has a frame, and neither the idle nor
-- the current process is BLOCKED.
pub record Sound (k : Sched) : Type 0 where
  pub inv : Inv k
  pub framed : (t : ℕ) → is_live (k.procs t).state ≡ true → (k.procs t).kframe ≢ 0
  pub idle_awake : (i : ℕ) → k.idle_proc ≡ some i → (k.procs i).state ≢ blocked
  pub current_awake : (c : ℕ) → k.current ≡ some c → (k.procs c).state ≢ blocked

-- A change of the fields of a process that is in no queue; one that makes it wait is not made to the
-- idle or the current process.
pub record Change (s : ℕ) (p : Pcb) (k : Sched) : Type 0 where
  pub out : queued s k.queue ≡ 0
  pub framed : is_live p.state ≡ true → p.kframe ≢ 0
  pub base : p.base_priority ≤ 3
  pub aside :
      ((p.state ≢ ready) × (p.state ≢ blocked)) ⊎ ((k.idle_proc ≢ some s) × (k.current ≢ some s))

-- A property of the other processes and of the new fields holds for all.
set_pcb-all :
    (P : ℕ → Pcb → Type 0) (s : ℕ) (p : Pcb) (k : Sched) (t : ℕ)
    → P s p
    → P t (k.procs t)
    → P t ((set_pcb s p k).procs t)
set_pcb-all P s p k t hs ht = elim (Bool-cases (s == t)) [
  | inl e ↦ let same : s ≡ t = ground arith in rw e (subst (λ u. P u p) same hs)
  | inr e ↦ rw e ht
]

set_pcb-aside :
    (s : ℕ) (p : Pcb) (k : Sched) (o : Option ℕ) (st : ProcState) (c : ℕ)
    → (p.state ≢ st) ⊎ (o ≢ some s)
    → o ≡ some c
    → (k.procs c).state ≢ st
    → ((set_pcb s p k).procs c).state ≢ st
set_pcb-aside s p k o st c a e old = elim (Bool-cases (s == c)) [
  | inl q ↦
      let same : s ≡ c = ground arith in
      rw q (elim a [ inl ne ↦ ne | inr far ↦ absurd (far (e ∙ ap some (sym same))) ])
  | inr q ↦ rw q old
]

pub set_pcb-Sound : (s : ℕ) (p : Pcb) (k : Sched) → Sound k → Change s p k → Sound (set_pcb s p k)
set_pcb-Sound s p k v h = record {
  inv = record {
    queues = record {
      placed = λ l t lt q. elim (Bool-cases (s == t)) [
        | inl e ↦
            let same : s ≡ t = ground arith in
            absurd (
              omega (arith, count-le-queued k.queue t l lt, ap (λ x. queued x k.queue) same, h.out))
        | inr e ↦ rw e (v.inv.queues.placed l t lt q)
      ];
      once = v.inv.queues.once;
      base = λ t. set_pcb-all (λ u b. b.base_priority ≤ 3) s p k t h.base (v.inv.queues.base t);
      idle_out =
          λ i e. set_pcb-aside s p k k.idle_proc ready i idle_ready e (v.inv.queues.idle_out i e);
    };
    current_out =
        λ c e. set_pcb-aside s p k k.current ready c current_ready e (v.inv.current_out c e);
  };
  framed =
      λ t. set_pcb-all (λ u b. is_live b.state ≡ true → b.kframe ≢ 0) s p k t h.framed (v.framed t);
  idle_awake = λ i e. set_pcb-aside s p k k.idle_proc blocked i idle_blocked e (v.idle_awake i e);
  current_awake =
      λ c e. set_pcb-aside s p k k.current blocked c current_blocked e (v.current_awake c e);
}
  where
    idle_ready : (p.state ≢ ready) ⊎ (k.idle_proc ≢ some s)
    idle_ready = elim h.aside [ inl a ↦ inl a.0 | inr a ↦ inr a.0 ]

    current_ready : (p.state ≢ ready) ⊎ (k.current ≢ some s)
    current_ready = elim h.aside [ inl a ↦ inl a.0 | inr a ↦ inr a.1 ]

    idle_blocked : (p.state ≢ blocked) ⊎ (k.idle_proc ≢ some s)
    idle_blocked = elim h.aside [ inl a ↦ inl a.1 | inr a ↦ inr a.0 ]

    current_blocked : (p.state ≢ blocked) ⊎ (k.current ≢ some s)
    current_blocked = elim h.aside [ inl a ↦ inl a.1 | inr a ↦ inr a.1 ]

-- What a removal leaves as it was.
pub record Fewer (k k' : Sched) : Type 0 where
  pub procs : k'.procs ≡ k.procs
  pub idle : k'.idle_proc ≡ k.idle_proc
  pub current : (c : ℕ) → k'.current ≡ some c → k.current ≡ some c
  pub level : (t p : ℕ) → count t (k'.queue p) ≤ count t (k.queue p)

relieved_current :
    (s : ℕ) (o : Option ℕ) (c : ℕ) → (if is_slot s o then none else o) ≡ some c → o ≡ some c
relieved_current s o c e = elim (Bool-cases (is_slot s o)) [
  | inl q ↦ let e' : none ≡ some c = rw q at e in cc
  | inr q ↦ rw q at e
]

update-unlink-le :
    (s l : ℕ) (q : ℕ → List ℕ) (t p : ℕ) → count t (update q l (unlink s (q l)) p) ≤ count t (q p)
update-unlink-le s l q t p = elim (Bool-cases (l == p)) [
  | inl e ↦
      let same : l ≡ p = ground arith in
      rw (e, ← same) (let c = count-unlink s t (q l) in omega (arith, c))
  | inr e ↦ rw e (omega arith)
]

pub sched_remove-Fewer : (s : ℕ) (k : Sched) → Fewer k (sched_remove s k)
unfolding sched_remove q_remove
sched_remove-Fewer s k = elim (Bool-cases (is_ready (k.procs s).state)) [
  | inl r ↦ elim (Bool-cases (ltb 3 (k.procs s).priority)) [
    | inl h ↦ rw (r, h) plain
    | inr h ↦
        rw (r, h)
          (record {
            procs = refl;
            idle = refl;
            current = relieved_current s k.current;
            level = update-unlink-le s (k.procs s).priority k.queue;
          })
  ]
  | inr r ↦ rw r plain
]
  where
    plain : Fewer k (record k { current = if is_slot s k.current then none else k.current })
    plain = record {
      procs = refl;
      idle = refl;
      current = relieved_current s k.current;
      level = λ t p. omega arith;
    }

pub sched_remove-Sound : (s : ℕ) (k : Sched) → Sound k → Sound (sched_remove s k)
sched_remove-Sound s k v =
    let f = sched_remove-Fewer s k in
    let k' = sched_remove s k in
    record {
      inv = record {
        queues = record {
          placed = λ p t lt q.
              let le = f.level t p in rw f.procs (v.inv.queues.placed p t lt (omega arith));
          once = λ t.
              let o = v.inv.queues.once t in
              omega (arith, o, f.level t 0, f.level t 1, f.level t 2, f.level t 3);
          base = λ t. rw f.procs (v.inv.queues.base t);
          idle_out = λ i e. rw f.procs (v.inv.queues.idle_out i (sym f.idle ∙ e));
        };
        current_out = λ c e. rw f.procs (v.inv.current_out c (f.current c e));
      };
      framed = λ t. rw f.procs (v.framed t);
      idle_awake = λ i e. rw f.procs (v.idle_awake i (sym f.idle ∙ e));
      current_awake = λ c e. rw f.procs (v.current_awake c (f.current c e));
    }

-- What `sched_enqueue` does to the process and to the others.
record Enqueued (s : ℕ) (k k' : Sched) : Type 0 where
  fields : Pcb
  procs : k'.procs ≡ update k.procs s fields
  frame : fields.kframe ≡ (k.procs s).kframe
  awake : fields.state ≢ blocked
  idle : k'.idle_proc ≡ k.idle_proc
  current : (k'.current ≡ k.current) ⊎ (k'.current ≡ some s)

sched_enqueue-Enqueued : (s : ℕ) (k : Sched) → Enqueued s k (sched_enqueue s k)
unfolding sched_enqueue q_push
sched_enqueue-Enqueued s k = by_current k.current k.scheduler_enabled
  where
    queued_pcb : Pcb
    queued_pcb = record (k.procs s) {
      priority = clamp_prio (k.procs s).priority;
      state = ready;
      ticks_left = time_slice_ticks;
      aging_ticks = 0;
    }

    Enq : Option ℕ → Bool → Type 0
    Enq o b = Enqueued s k (elim o [
      | none ↦
          if not b
          then set_pcb s (record (k.procs s) { state = running; ticks_left = time_slice_ticks })
              (record k { current = some s })
          else q_push s (set_pcb s queued_pcb k)
      | some c ↦ q_push s (set_pcb s queued_pcb k)
    ])

    pushed : Enqueued s k (q_push s (set_pcb s queued_pcb k))
    pushed = record {
      fields = queued_pcb;
      procs = refl;
      frame = refl;
      awake = λ e. cc;
      idle = refl;
      current = inl refl;
    }

    by_current : (o : Option ℕ) (b : Bool) → Enq o b
    by_current none true = pushed
    by_current none false = record {
      fields = record (k.procs s) { state = running; ticks_left = time_slice_ticks };
      procs = refl;
      frame = refl;
      awake = λ e. cc;
      idle = refl;
      current = inr refl;
    }
    by_current (some c) b = pushed

pub sched_enqueue-Sound :
    (s : ℕ) (k : Sched)
    → Sound k
    → queued s k.queue ≡ 0
    → (k.procs s).kframe ≢ 0
    → k.idle_proc ≢ some s
    → k.current ≢ some s
    → Sound (sched_enqueue s k)
sched_enqueue-Sound s k v out framed ni nc =
    let q = sched_enqueue-Enqueued s k in
    record {
      inv = sched_enqueue-Inv s k v.inv out framed ni nc;
      framed = λ t. rw q.procs (
          set_pcb-all (λ u b. is_live b.state ≡ true → b.kframe ≢ 0) s q.fields k t
            (λ live. rw q.frame framed) (v.framed t));
      idle_awake = λ i e. rw q.procs (
          set_pcb-all (λ u b. k.idle_proc ≡ some u → b.state ≢ blocked) s q.fields k i
            (λ e. q.awake) (v.idle_awake i) (sym q.idle ∙ e));
      current_awake = λ c e. rw q.procs (awake q c e);
    }
  where
    awake :
        (q : Enqueued s k (sched_enqueue s k)) (c : ℕ)
        → (sched_enqueue s k).current ≡ some c
        → ((set_pcb s q.fields k).procs c).state ≢ blocked
    awake q c e = elim (Bool-cases (s == c)) [
      | inl y ↦ rw y q.awake
      | inr y ↦ rw y (elim q.current [
        | inl old ↦ v.current_awake c (sym old ∙ e)
        | inr self ↦ absurd (let same : some s ≡ some c = sym self ∙ e in ground (arith, same))
      ])
    ]

-- The fields that the queues do not read changed.
pub retouch-Sound :
    (s : ℕ) (p : Pcb) (k : Sched)
    → Sound k
    → p.state ≡ (k.procs s).state
    → p.priority ≡ (k.procs s).priority
    → p.kframe ≡ (k.procs s).kframe
    → p.base_priority ≤ 3
    → Sound (set_pcb s p k)
retouch-Sound s p k v st pr fr b = record {
  inv = record {
    queues = record {
      placed = λ l t lt q.
          let w = v.inv.queues.placed l t lt q in
          set_pcb-all (λ u c. u ≡ t → Waiting l c) s p k t
            (λ e. record {
              is_ready = st ∙ ap (λ u. (k.procs u).state) e ∙ w.is_ready;
              at = pr ∙ ap (λ u. (k.procs u).priority) e ∙ w.at;
              framed = λ z. w.framed (sym (fr ∙ ap (λ u. (k.procs u).kframe) e) ∙ z);
            })
            (λ e. w) refl;
      once = v.inv.queues.once;
      base = λ t. set_pcb-all (λ u c. c.base_priority ≤ 3) s p k t b (v.inv.queues.base t);
      idle_out = λ i e. same_state ready i (v.inv.queues.idle_out i e);
    };
    current_out = λ c e. same_state ready c (v.inv.current_out c e);
  };
  framed = λ t.
      set_pcb-all (λ u c. is_live c.state ≡ true → c.kframe ≢ 0) s p k t
        (λ live z. v.framed s (ap is_live (sym st) ∙ live) (sym fr ∙ z)) (v.framed t);
  idle_awake = λ i e. same_state blocked i (v.idle_awake i e);
  current_awake = λ c e. same_state blocked c (v.current_awake c e);
}
  where
    same_state :
        (st' : ProcState) (c : ℕ) → (k.procs c).state ≢ st' → ((set_pcb s p k).procs c).state ≢ st'
    same_state st' c old =
        set_pcb-all (λ u b'. u ≡ c → b'.state ≢ st') s p k c
          (λ e z. old (ap (λ u. (k.procs u).state) (sym e) ∙ sym st ∙ z)) (λ e. old) refl

-- Nobody runs.
pub no_current-Sound : (k : Sched) → Sound k → Sound (record k { current = none })
no_current-Sound k v = record {
  inv = record {
    queues = record {
      placed = v.inv.queues.placed;
      once = v.inv.queues.once;
      base = v.inv.queues.base;
      idle_out = v.inv.queues.idle_out;
    };
    current_out = λ c e. cc;
  };
  framed = v.framed;
  idle_awake = v.idle_awake;
  current_awake = λ c e. cc;
}

-- `sched_remove` of the current process does not read which one is current.
pub sched_remove_current :
    (s : ℕ) (k : Sched)
    → is_slot s k.current ≡ true
    → sched_remove s k ≡ sched_remove s (record k { current = none })
unfolding sched_remove
sched_remove_current s k e = rw (e, sched_remove) refl
