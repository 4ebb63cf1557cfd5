-- ===== src/Fd.antt =====
-- Kernel/fs/fd.c and Kernel/include/fd.h: tables of descriptors and the files that they share.
-- A `file_t *` is an address in a store; the store says which addresses hold a file.
pub mod Counting
pub mod Duplicate
mod Runs
use tp2_kernel.Base.{
  ℕ, zero, suc, ◌+◌, ◌-◌, Bool, true, false, not, ◌&&◌, ◌||◌, Option, none, some, List, [], ◌∷◌,
  ◌++◌, ltb, leb, ◌==◌, if◌then◌else◌, update,
}

-- `fd_type_t`
pub data FdType : Type 0 where
  fd_none fd_tty fd_pipe : FdType

-- `struct file`, its operations being given by its type. The count is never negative while the file
-- exists.
pub record File : Type 0 where
  pub type : FdType
  pub ptr : ℕ
  pub can_read : Bool
  pub can_write : Bool
  pub fg_read_guard : Bool
  pub refcount : ℕ

-- FD_MAX
abbrev pub fd_max : ℕ
fd_max = 64

-- The files, the entries of the tables, and the files that were closed and freed, the last one
-- first. A table is an address as well.
pub record Fds : Type 0 where
  pub files : ℕ → File
  pub entries : ℕ → ℕ → Option ℕ
  pub closed : List ℕ
  pub stdin_file : Option ℕ
  pub stdout_file : Option ℕ
  pub stderr_file : Option ℕ

abbrev pub set_file : ℕ → File → Fds → Fds
set_file a f k = record k { files = update k.files a f }

abbrev pub set_entry : ℕ → ℕ → Option ℕ → Fds → Fds
set_entry t fd e k = record k { entries = update k.entries t (update (k.entries t) fd e) }

-- `file_create` with a `ptr` and operations that are not null, at the address that `mm_malloc` grants.
pub file_create : FdType → ℕ → Bool → Bool → Option ℕ → Fds → Option ℕ × Fds
file_create ty ptr rd wr none k = (none, k)
file_create ty ptr rd wr (some a) k = (
  some a,
  set_file a
      (record {
        type = ty;
        ptr = ptr;
        can_read = rd;
        can_write = wr;
        fg_read_guard = false;
        refcount = 1;
      })
      k,
)

pub file_ref : ℕ → Fds → Fds
file_ref a k = set_file a (record (k.files a) { refcount = (k.files a).refcount + 1 }) k

-- The last release closes the file and frees it.
pub file_release : ℕ → Fds → Fds
file_release a k =
    let k' = set_file a (record (k.files a) { refcount = (k.files a).refcount - 1 }) k in
    if ltb 0 (k'.files a).refcount then k' else record k' { closed = a ∷ k'.closed }

-- A table of empty entries at the address that `mm_malloc` grants.
pub fd_table_create : Option ℕ → Fds → Option ℕ × Fds
fd_table_create none k = (none, k)
fd_table_create (some t) k = (some t, record k { entries = update k.entries t (λ fd. none) })

-- The entry of one descriptor, if it holds a file, released and emptied.
pub release_entry : ℕ → ℕ → Fds → Fds
unfolding file_release
release_entry t fd k = elim (k.entries t fd) [
  | none ↦ k
  | some a ↦ set_entry t fd none (file_release a k)
]

-- The loop of `fd_table_destroy` over the `n` descriptors from `fd` up.
pub destroy_from : ℕ → ℕ → ℕ → Fds → Fds
unfolding release_entry
destroy_from zero fd t k = k
destroy_from (suc n) fd t k = destroy_from n (fd + 1) t (release_entry t fd k)

pub fd_table_destroy : ℕ → Fds → Fds
unfolding destroy_from
fd_table_destroy t k = destroy_from fd_max 0 t k

abbrev pub attach : ℕ → ℕ → Option ℕ → Fds → Fds
attach t fd none k = k
attach t fd (some a) k = set_entry t fd (some a) (file_ref a k)

-- FD_STDIN, FD_STDOUT and FD_STDERR are 0, 1 and 2.
pub fd_table_attach_std : ℕ → Fds → Fds
unfolding file_ref
fd_table_attach_std t k =
    attach t 2 k.stderr_file (attach t 1 k.stdout_file (attach t 0 k.stdin_file k))

-- The second loop of `fd_table_clone`, over the `n` descriptors from `fd` up.
pub clone_from : ℕ → ℕ → ℕ → ℕ → Fds → Fds
unfolding file_ref
clone_from zero fd dst src k = k
clone_from (suc n) fd dst src k = clone_from n (fd + 1) dst src (attach dst fd (k.entries src fd) k)

-- `src` may be null.
pub fd_table_clone : ℕ → Option ℕ → Fds → Fds
unfolding fd_table_attach_std clone_from
fd_table_clone dst src k =
    let k' = record k { entries = update k.entries dst (λ fd. none) } in
    elim src [ none ↦ fd_table_attach_std dst k' | some s ↦ clone_from fd_max 0 dst s k' ]

pub fd_table_get : ℕ → ℕ → Fds → Option ℕ
fd_table_get t fd k = if leb fd_max fd then none else k.entries t fd

pub fd_table_can_read : ℕ → ℕ → Fds → Bool
unfolding fd_table_get
fd_table_can_read t fd k = elim (fd_table_get t fd k) [
  | none ↦ false
  | some a ↦ (k.files a).can_read
]

pub fd_table_can_write : ℕ → ℕ → Fds → Bool
unfolding fd_table_get
fd_table_can_write t fd k = elim (fd_table_get t fd k) [
  | none ↦ false
  | some a ↦ (k.files a).can_write
]

-- `none` is -1 from here on.
pub fd_table_close : ℕ → ℕ → Fds → Option ℕ × Fds
unfolding file_release
fd_table_close t fd k = if leb fd_max fd then (none, k) else elim (k.entries t fd) [
  | none ↦ (none, k)
  | some a ↦ (some 0, file_release a (set_entry t fd none k))
]

pub fd_table_install : ℕ → ℕ → ℕ → Fds → Option ℕ × Fds
unfolding file_release
fd_table_install t fd a k = if leb fd_max fd then (none, k) else elim (k.entries t fd) [
  | none ↦ (some fd, set_entry t fd (some a) k)
  | some b ↦ (some fd, set_entry t fd (some a) (file_release b k))
]

-- The loop of `fd_table_allocate`: the first empty entry of the `n` from `fd` up.
pub first_free : ℕ → ℕ → (ℕ → Option ℕ) → Option ℕ
first_free zero fd e = none
first_free (suc n) fd e =
    let rest = first_free n (fd + 1) e in elim (e fd) [ none ↦ some fd | some a ↦ rest ]

pub fd_table_allocate : ℕ → ℕ → Fds → Option ℕ × Fds
unfolding first_free
fd_table_allocate t a k = elim (first_free fd_max 0 (k.entries t)) [
  | none ↦ (none, k)
  | some fd ↦ (some fd, set_entry t fd (some a) k)
]

-- The end of `fd_table_dup2`, with the file of the old descriptor.
pub dup_onto : ℕ → ℕ → ℕ → Fds → Fds
unfolding file_release file_ref
dup_onto t newfd a k =
    set_entry t newfd (some a)
      (file_ref a (elim (k.entries t newfd) [ none ↦ k | some b ↦ file_release b k ]))

pub fd_table_dup2 : ℕ → ℕ → ℕ → Fds → Option ℕ × Fds
unfolding dup_onto
fd_table_dup2 t oldfd newfd k =
    if leb fd_max oldfd || leb fd_max newfd then (none, k) else elim (k.entries t oldfd) [
      | none ↦ (none, k)
      | some a ↦ if oldfd == newfd then (some newfd, k) else (some newfd, dup_onto t newfd a k)
    ]
