-- ===== src/Sem.antt =====
-- Kernel/ipc/semaphore.c and Kernel/include/semaphore.h: named counting semaphores.
-- A section under the semaphore's lock runs alone. A `pcb_t *` is the number of a slot, a queue of
-- waiters the list of their slots, and a `ksem_t *` an address in a store.
pub mod Fairness
pub mod Naming
pub mod Lifetime
pub mod Handles
mod Runs
use tp2_kernel.Base.{
  ℕ, zero, suc, ◌+◌, ◌-◌, ◌%◌, ◌^◌, Bool, true, false, not, ◌&&◌, ◌||◌, Option, none, some, List,
  [], ◌∷◌, ◌++◌, ltb, leb, ◌==◌, if◌then◌else◌, update,
}
use tp2_kernel.Names.{same_name, name_copy, sem_hash, sem_name_len, name_max}

-- `ksem_t`; `hash_next` is the chain of the bucket.
pub record Sem : Type 0 where
  pub name : List ℕ
  pub count : ℕ
  pub refcount : ℕ
  pub unlinked : Bool
  pub destroying : Bool
  pub waiters : List ℕ

-- UINT32_MAX
abbrev pub uint32_max : ℕ
uint32_max = 0xFFFFFFFF

abbrev pub wait_queue_is_empty : List ℕ → Bool
wait_queue_is_empty [] = true
wait_queue_is_empty (s ∷ q) = false

abbrev pub wait_queue_push : List ℕ → ℕ → List ℕ
wait_queue_push q s = q ++ s ∷ []

pub wait_queue_pop : List ℕ → Option ℕ × List ℕ
wait_queue_pop [] = (none, [])
wait_queue_pop (s ∷ q) = (some s, q)

-- What stays of the queue, and the nodes that are taken out of it.
pub wait_queue_remove_proc : ℕ → List ℕ → List ℕ × List ℕ
wait_queue_remove_proc s [] = ([], [])
wait_queue_remove_proc s (t ∷ q) =
    let (kept, removed) = wait_queue_remove_proc s q in
    if t == s then (kept, t ∷ removed) else (t ∷ kept, removed)

pub sem_ready_to_destroy_locked : Sem → Bool × Sem
sem_ready_to_destroy_locked m =
    if m.destroying
    then (false, m)
    else if m.unlinked && (m.refcount == 0 && wait_queue_is_empty m.waiters)
    then (true, record m { destroying = true })
    else (false, m)

-- What a call of `ksem_wait` comes to: -1, a unit taken at once, or a wait in the queue.
pub data Waited : Type 0 where
  refused : Waited
  passed : Waited
  asleep : Waited

-- `ksem_wait` by the process in slot `current`, with what `mm_malloc` says to a waiter.
pub ksem_wait : Option ℕ → Bool → Sem → Waited × Sem
ksem_wait none allocated m = (refused, m)
ksem_wait (some c) allocated m =
    if not allocated
    then (refused, m)
    else if ltb 0 m.count
    then (passed, record m { count = m.count - 1 })
    else (asleep, record m { waiters = wait_queue_push m.waiters c })

-- `if (sem->count < UINT32_MAX) sem->count++;`
pub raise : Sem → Sem
raise m = record m { count = if ltb m.count uint32_max then m.count + 1 else m.count }

-- The first section of `ksem_post`: the process to wake, or one unit more.
pub post_locked : Sem → Option ℕ × Sem
unfolding wait_queue_pop raise
post_locked m =
    if not (wait_queue_is_empty m.waiters)
    then (let (s, q) = wait_queue_pop m.waiters in (s, record m { waiters = q }))
    else (none, raise m)

-- `ksem_post`, given for which slots `proc_unblock` succeeds, and what the other processes do to the
-- semaphore before the section that makes up for a failure.
pub ksem_post : (ℕ → Bool) → (Sem → Sem) → Sem → Option ℕ × Sem
unfolding post_locked raise
ksem_post unblocks meanwhile m =
    let (s, m') = post_locked m in
    elim s [
      | none ↦ (none, m')
      | some t ↦ if unblocks t then (some t, m') else (none, raise (meanwhile m'))
    ]

-- `ksem_close`: its success, whether the semaphore is freed, and the semaphore.
pub ksem_close : Sem → Bool × (Bool × Sem)
unfolding sem_ready_to_destroy_locked
ksem_close m =
    if m.refcount == 0
    then (false, (false, m))
    else (true, sem_ready_to_destroy_locked (record m { refcount = m.refcount - 1 }))

-- The table of names: the chain of each bucket, and the semaphore at each address.
pub record Table : Type 0 where
  pub buckets : ℕ → List ℕ
  pub at : ℕ → Sem

-- The loop that looks for a name in a chain.
pub find_sem : List ℕ → (ℕ → Sem) → List ℕ → Option ℕ
find_sem name at [] = none
find_sem name at (a ∷ chain) =
    if not (at a).unlinked && same_name (at a).name name then some a else find_sem name at chain

-- `sem->refcount++` on 32 bits.
pub take_ref : ℕ → Table → Table
take_ref a t = record t {
  at = update t.at a (record (t.at a) { refcount = ((t.at a).refcount + 1) % 2 ^ 32 });
}

abbrev pub bad_name : List ℕ → Bool
bad_name name = sem_name_len name == 0 || leb name_max (sem_name_len name)

pub new_sem : List ℕ → ℕ → Sem
new_sem name init = record {
  name = name_copy name;
  count = init;
  refcount = 1;
  unlinked = false;
  destroying = false;
  waiters = [];
}

-- The new semaphore at the head of its bucket.
pub insert_sem : List ℕ → ℕ → ℕ → Table → Table
insert_sem name init a t = record {
  buckets = update t.buckets (sem_hash name) (a ∷ t.buckets (sem_hash name));
  at = update t.at a (new_sem name init);
}

-- `ksem_open`, given the address that `mm_malloc` grants and what the other processes do to the table
-- during the allocation.
pub ksem_open : List ℕ → ℕ → Option ℕ → (Table → Table) → Table → Option ℕ × Table
unfolding find_sem take_ref insert_sem
ksem_open name init fresh meanwhile t =
    if bad_name name then (none, t) else elim (find_sem name t.at (t.buckets (sem_hash name))) [
      | some a ↦ (some a, take_ref a t)
      | none ↦ elim fresh [
        | none ↦ (none, meanwhile t)
        | some n ↦
            let t' = meanwhile t in
            elim (find_sem name t'.at (t'.buckets (sem_hash name))) [
              | some a ↦ (some a, take_ref a t')
              | none ↦ (some n, insert_sem name init n t')
            ]
      ]
    ]

-- The address taken out of a chain.
pub drop_sem : ℕ → List ℕ → List ℕ
drop_sem a [] = []
drop_sem a (b ∷ chain) = if b == a then chain else b ∷ drop_sem a chain

-- `ksem_unlink`: the address of the semaphore if it is found, whether it is freed, and the table.
-- Between its two sections the other processes may use the semaphore.
pub ksem_unlink : List ℕ → (Table → Table) → Table → Option ℕ × (Bool × Table)
unfolding find_sem drop_sem sem_ready_to_destroy_locked
ksem_unlink name meanwhile t =
    let b = sem_hash name in
    if bad_name name then (none, (false, t)) else elim (find_sem name t.at (t.buckets b)) [
      | none ↦ (none, (false, t))
      | some a ↦
          let t' =
            meanwhile (record t { buckets = update t.buckets b (drop_sem a (t.buckets b)) }) in
          let (freed, m) = sem_ready_to_destroy_locked (record (t'.at a) { unlinked = true }) in
          (some a, (freed, record t' { at = update t'.at a m }))
    ]

-- The loop of `ksem_remove_waiters_for` over one chain.
pub remove_in_chain : ℕ → List ℕ → (ℕ → Sem) → (ℕ → Sem)
unfolding wait_queue_remove_proc
remove_in_chain s [] at = at
remove_in_chain s (a ∷ chain) at =
    remove_in_chain s chain
      (update at a (record (at a) { waiters = (wait_queue_remove_proc s (at a).waiters).0 }))

-- The loop over the `n` buckets from `b` up.
pub remove_in_buckets : ℕ → ℕ → ℕ → Table → Table
unfolding remove_in_chain
remove_in_buckets zero b s t = t
remove_in_buckets (suc n) b s t =
    remove_in_buckets n (b + 1) s (record t { at = remove_in_chain s (t.buckets b) t.at })

-- KSEM_HASH_BUCKETS
abbrev pub sem_buckets : ℕ
sem_buckets = 32

pub ksem_remove_waiters_for : ℕ → Table → Table
unfolding remove_in_buckets
ksem_remove_waiters_for s t = remove_in_buckets sem_buckets 0 s t
