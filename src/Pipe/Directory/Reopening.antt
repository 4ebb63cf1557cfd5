-- ===== src/Pipe/Directory/Reopening.antt =====
-- Opening and unlinking a name of Kernel/ipc/pipe.c a second time.
use tp2_kernel.Base.{
  ℕ, ◌<◌, ◌≡◌, refl, ◌∙◌, Bool, false, Option, none, some, List, [], arith, length, ltb,
}
use tp2_kernel.Names.{pipe_hash, IsName}
use tp2_kernel.Pipe.Directory.{
  Directory, find_pipe, insert_pipe, kpipe_open, kpipe_unlink, find_pipe-insert_pipe,
}

-- The search for a name finds an address.
abbrev pub Finds : List ℕ → Option ℕ → Directory → Type 0
Finds name none d = Unit
Finds name (some a) d = find_pipe name d.at (d.buckets (pipe_hash name)) ≡ some a

open-new :
    (name : List ℕ) (rd wr : Bool) (n : ℕ) (meanwhile : Directory → Directory) (d : Directory)
    → find_pipe name d.at (d.buckets (pipe_hash name)) ≡ none
    → find_pipe name (meanwhile d).at ((meanwhile d).buckets (pipe_hash name)) ≡ none
    → kpipe_open name rd wr (some n) meanwhile d ≡ (some n, insert_pipe name rd wr n (meanwhile d))
unfolding kpipe_open
open-new name rd wr n meanwhile d e late = rw (e, kpipe_open) (rw late refl)

-- A pipe that is made under a name of 32 bytes or more in an empty bucket is lost to its name: the
-- name cannot be unlinked, and the next `kpipe_open` of it makes a pipe of its own.
pub kpipe_open_forgets :
    (name : List ℕ) (rd wr : Bool) (n m : ℕ) (d : Directory)
    → IsName name
    → 31 < length name
    → d.buckets (pipe_hash name) ≡ []
    → let d' = insert_pipe name rd wr n d in
      (kpipe_open name rd wr (some n) (λ d. d) d ≡ (some n, d'))
      × (kpipe_unlink name d' ≡ (none, (false, d')))
      × (kpipe_open name rd wr (some m) (λ d. d) d' ≡ (some m, insert_pipe name rd wr m d'))
unfolding kpipe_unlink find_pipe
kpipe_open_forgets name rd wr n m d v h empty =
    let long : ltb (length name) 32 ≡ false = ground arith in
    let d' : Directory = insert_pipe name rd wr n d in
    let before : find_pipe name d.at (d.buckets (pipe_hash name)) ≡ none = rw empty refl in
    let left : find_pipe name d'.at (d.buckets (pipe_hash name)) ≡ none = rw empty refl in
    let f = find_pipe-insert_pipe name rd wr n d v in
    let after : find_pipe name d'.at (d'.buckets (pipe_hash name)) ≡ none = (rw long at f) ∙ left in
    (
      open-new name rd wr n (λ d. d) d before before,
      rw (after, kpipe_unlink) refl,
      open-new name rd wr m (λ d. d) d' after after,
    )
