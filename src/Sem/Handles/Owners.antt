-- ===== src/Sem/Handles/Owners.antt =====
-- Who owns the handles of semaphores in Kernel/sys/syscalls.c.
use tp2_kernel.Base.{
  ℕ, zero, suc, ◌+◌, ◌-◌, ◌<◌, ◌≤◌, ◌≡◌, ◌≢◌, refl, sym, ap, ◌∙◌, Bool, true, false, Option, none,
  some, List, [], ◌∷◌, arith, update, ◌==◌, ==_self, if◌then◌else◌, Bool-cases, Option-cases, inl,
  inr, ◌⊎◌,
}
use tp2_kernel.Sem.{Table}
use tp2_kernel.Sem.Handles.{
  close_at, Handle, Handles, handle_max, first_empty, is_empty, sem_of, in_range,
  sem_handle_allocate, sem_handle_peek,
}

first_empty_found :
    (n i : ℕ) (entries : ℕ → Option Handle) (j : ℕ)
    → first_empty n i entries ≡ some j
    → (i ≤ j) × (j < i + n) × (is_empty (entries j) ≡ true)
unfolding first_empty
first_empty_found zero i entries j e = cc
first_empty_found (suc n) i entries j e = elim (Bool-cases (is_empty (entries i))) [
  | inl h ↦
      let here : some i ≡ some j = rw h at e in
      let same : i ≡ j = ground (arith, here) in
      (omega arith, omega arith, ap (λ u. is_empty (entries u)) (sym same) ∙ h)
  | inr h ↦
      let behind = first_empty_found n (i + 1) entries j (rw h at e) in
      (omega (arith, behind.0), omega (arith, behind.1), behind.2)
]

empty_sem : (o : Option Handle) → is_empty o ≡ true → sem_of o ≡ none
empty_sem none e = refl
empty_sem (some h) e = cc

peek_in :
    (handle : ℕ) (h : Handles) (i : ℕ)
    → handle ≡ i + 1
    → i < handle_max
    → sem_handle_peek handle h ≡ sem_of (h.entries i)
unfolding sem_handle_peek
peek_in handle h i e lt =
    let inside : in_range handle ≡ true = ground (arith, e, lt) in
    let at : handle - 1 ≡ i = omega (arith, e) in rw (inside, sem_handle_peek, at) refl

-- What `sem_handle_allocate` of a semaphore comes to: a handle in the range that leads to the semaphore,
-- in an entry that was empty, with the other entries kept; or nothing is changed.
abbrev pub Allocated : ℕ → Handles → Option ℕ → Handles → Type 0
Allocated sem h none h' = h' ≡ h
Allocated sem h (some handle) h' =
    (sem_handle_peek handle h' ≡ some sem)
    × (sem_handle_peek handle h ≡ none)
    × ((other : ℕ) → other ≢ handle → sem_handle_peek other h' ≡ sem_handle_peek other h)

pub sem_handle_allocate-Allocated :
    (sem owner : ℕ) (h : Handles)
    → Allocated sem h (sem_handle_allocate sem owner h).0 (sem_handle_allocate sem owner h).1
unfolding sem_handle_allocate sem_handle_peek
sem_handle_allocate-Allocated sem owner h =
    elim (Option-cases (first_empty handle_max 0 h.entries)) [
      | inl e ↦ rw (e, sem_handle_allocate) refl
      | inr (i, e) ↦
          let f = first_empty_found handle_max 0 h.entries i e in
          rw (e, sem_handle_allocate)
            (
              peek_in (i + 1)
                    (record h {
                      entries = update h.entries i (some (record { sem = sem; owner_pid = owner }));
                    })
                    i (omega arith) (omega (arith, f.1))
                  ∙ rw (==_self i) refl,
              peek_in (i + 1) h i (omega arith) (omega (arith, f.1)) ∙ empty_sem (h.entries i) f.2,
              λ other ne. elim (Bool-cases (in_range other)) [
                | inl r ↦
                    let apart : (i == other - 1) ≡ false = ground (arith, r, ne) in
                    rw (r, sem_handle_peek, apart) refl
                | inr r ↦ rw (r, sem_handle_peek) refl
              ],
            )
    ]

-- An entry that the process owns.
abbrev pub owns : ℕ → Option Handle → Bool
owns pid none = false
owns pid (some e) = e.owner_pid == pid

-- What the loop of `sem_cleanup_process_handles` does to the entries `n` from `i` up.
record Cleaned (n i pid : ℕ) (h h' : Handles) : Type 0 where
  emptied : (j : ℕ) → i ≤ j → j < i + n → owns pid (h.entries j) ≡ true → h'.entries j ≡ none
  kept : (j : ℕ) → owns pid (h.entries j) ≡ false → h'.entries j ≡ h.entries j
  outside : (j : ℕ) → (j < i) ⊎ (i + n ≤ j) → h'.entries j ≡ h.entries j

-- A list with the semaphore of an entry in front, if the process owns the entry.
abbrev pub with_owned : ℕ → Option Handle → List ℕ → List ℕ
with_owned pid none sems = sems
with_owned pid (some e) sems = if e.owner_pid == pid then e.sem ∷ sems else sems

-- The semaphores of the entries that the process owns, of the `n` from `i` up, in their order.
pub owned_sems : ℕ → ℕ → ℕ → (ℕ → Option Handle) → List ℕ
owned_sems zero i pid entries = []
owned_sems (suc n) i pid entries = with_owned pid (entries i) (owned_sems n (i + 1) pid entries)

-- The semaphores of a list closed, one after the other.
pub close_all : List ℕ → Table → Table
close_all [] t = t
close_all (a ∷ sems) t = close_all sems (close_at a t).1

-- What `sem_cleanup_process_handles` of a process leaves: its handles emptied and their semaphores closed
-- in their order, and all the other handles.
pub record Disowned (pid : ℕ) (h h' : Handles) : Type 0 where
  pub emptied : (j : ℕ) → j < handle_max → owns pid (h.entries j) ≡ true → h'.entries j ≡ none
  pub kept : (j : ℕ) → owns pid (h.entries j) ≡ false → h'.entries j ≡ h.entries j
  pub closed : h'.table ≡ close_all (owned_sems handle_max 0 pid h.entries) h.table
