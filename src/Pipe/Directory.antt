-- ===== src/Pipe/Directory.antt =====
-- The table of names of Kernel/ipc/pipe.c: `kpipe_open` and `kpipe_unlink`.
-- A `kpipe_t *` is an address in a store; a bucket is the chain of its addresses.
pub mod Reopening
mod Runs
use tp2_kernel.Base.{
  ℕ, zero, suc, ◌+◌, ◌<◌, ◌≤◌, ◌≡◌, ◌≢◌, refl, sym, ap, ◌∙◌, Bool, true, false, not, ◌&&◌, Option,
  none, some, List, [], ◌∷◌, arith, ltb, ◌==◌, ==_self, if◌then◌else◌, length, update, Bool-cases,
  inl, inr,
}
use tp2_kernel.Names.{same_name, same_name_iff, name_copy, same_name-name_copy, pipe_hash, IsName}
use tp2_kernel.Pipe.{Pipe}

pub record Directory : Type 0 where
  pub buckets : ℕ → List ℕ
  pub at : ℕ → Pipe

-- The loop that looks for a name in a chain.
pub find_pipe : List ℕ → (ℕ → Pipe) → List ℕ → Option ℕ
find_pipe name at [] = none
find_pipe name at (a ∷ chain) =
    let rest = find_pipe name at chain in
    if not (at a).unlinked && same_name (at a).name name then some a else rest

-- `if (for_read) readers++; if (for_write) writers++;`
pub add_ends : Bool → Bool → ℕ → Directory → Directory
add_ends for_read for_write a d = record d {
  at = update d.at a (record (d.at a) {
    readers = if for_read then (d.at a).readers + 1 else (d.at a).readers;
    writers = if for_write then (d.at a).writers + 1 else (d.at a).writers;
  });
}

pub new_pipe : List ℕ → Bool → Bool → Pipe
new_pipe name for_read for_write = record {
  name = name_copy name;
  buf = λ i. 0;
  r = 0;
  w = 0;
  size = 0;
  readers = if for_read then 1 else 0;
  writers = if for_write then 1 else 0;
  unlinked = false;
  r_queue = [];
  w_queue = [];
}

-- The new pipe at the head of its bucket.
pub insert_pipe : List ℕ → Bool → Bool → ℕ → Directory → Directory
insert_pipe name for_read for_write a d = record {
  buckets = update d.buckets (pipe_hash name) (a ∷ d.buckets (pipe_hash name));
  at = update d.at a (new_pipe name for_read for_write);
}

-- `kpipe_open`, given the address that `mm_malloc` grants and what the other processes do to the
-- table during the allocation; `none` is -1.
pub kpipe_open :
    List ℕ → Bool → Bool → Option ℕ → (Directory → Directory) → Directory → Option ℕ × Directory
unfolding find_pipe add_ends insert_pipe
kpipe_open name rd wr fresh meanwhile d =
    let d' = meanwhile d in
    elim (find_pipe name d.at (d.buckets (pipe_hash name))) [
      | some a ↦ (some a, add_ends rd wr a d)
      | none ↦ elim fresh [
        | none ↦ (none, d')
        | some n ↦ elim (find_pipe name d'.at (d'.buckets (pipe_hash name))) [
          | some a ↦ (some a, add_ends rd wr a d')
          | none ↦ (some n, insert_pipe name rd wr n d')
        ]
      ]
    ]

-- The address taken out of a chain.
pub drop_pipe : ℕ → List ℕ → List ℕ
drop_pipe a [] = []
drop_pipe a (b ∷ chain) = let rest = drop_pipe a chain in if b == a then chain else b ∷ rest

-- `kpipe_unlink`: the address if the name is found, whether the pipe is freed, and the table.
pub kpipe_unlink : List ℕ → Directory → Option ℕ × (Bool × Directory)
unfolding find_pipe drop_pipe
kpipe_unlink name d =
    let h = pipe_hash name in
    elim (find_pipe name d.at (d.buckets h)) [
      | none ↦ (none, (false, d))
      | some a ↦ (
        some a,
        (
          (d.at a).readers == 0 && (d.at a).writers == 0,
          record {
            buckets = update d.buckets h (drop_pipe a (d.buckets h));
            at = update d.at a (record (d.at a) { unlinked = true });
          },
        ),
      )
    ]

-- A search sees of a pipe only its name and whether it is unlinked.
pub find_pipe_same :
    (name : List ℕ) (at at' : ℕ → Pipe) (chain : List ℕ)
    → ((a : ℕ) → ((at' a).name ≡ (at a).name) × ((at' a).unlinked ≡ (at a).unlinked))
    → find_pipe name at' chain ≡ find_pipe name at chain
unfolding find_pipe
find_pipe_same name at at' [] h = refl
find_pipe_same name at at' (a ∷ chain) h =
    let (n, u) = h a in let ih = find_pipe_same name at at' chain h in rw (n, u, ih) refl

pub add_ends_same :
    (rd wr : Bool) (a : ℕ) (d : Directory) (b : ℕ)
    → (((add_ends rd wr a d).at b).name ≡ (d.at b).name)
      × (((add_ends rd wr a d).at b).unlinked ≡ (d.at b).unlinked)
unfolding add_ends
add_ends_same rd wr a d b = elim (Bool-cases (a == b)) [
  | inl e ↦
      let same : a ≡ b = ground arith in rw (← same) (rw (==_self a) refl, rw (==_self a) refl)
  | inr e ↦ (rw e refl, rw e refl)
]

-- What a search finds in a table where the pipe has just been made.
pub find_pipe-insert_pipe :
    (name : List ℕ) (rd wr : Bool) (n : ℕ) (d : Directory)
    → IsName name
    → find_pipe name
        (insert_pipe name rd wr n d).at
        ((insert_pipe name rd wr n d).buckets (pipe_hash name))
      ≡ (if ltb (length name) 32
          then some n
          else find_pipe name (insert_pipe name rd wr n d).at (d.buckets (pipe_hash name)))
unfolding find_pipe insert_pipe new_pipe
find_pipe-insert_pipe name rd wr n d v =
    let stored : update d.at n (new_pipe name rd wr) n ≡ new_pipe name rd wr =
      rw (==_self n) refl in
    let chained : (insert_pipe name rd wr n d).buckets (pipe_hash name)
        ≡ n ∷ d.buckets (pipe_hash name) =
      rw (==_self (pipe_hash name)) refl in
    rw chained (rw stored (rw (same_name-name_copy name v) refl))
