-- ===== src/Sem/Naming.antt =====
-- The table of names of Kernel/ipc/semaphore.c: `ksem_open`.
use tp2_kernel.Base.{ℕ, ◌≡◌, Option, none, some, List}
use tp2_kernel.Names.{sem_hash}
use tp2_kernel.Sem.{Sem, Table, find_sem}

-- The search for a name finds an address.
abbrev pub Finds : List ℕ → Option ℕ → Table → Type 0
Finds name none t = Unit
Finds name (some a) t = find_sem name t.at (t.buckets (sem_hash name)) ≡ some a
