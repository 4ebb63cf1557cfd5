-- ===== src/Sem/Runs.antt =====
-- Runs of Kernel/ipc/semaphore.c.
use tp2_kernel.Base.{ℕ, refl, inl, true, false, List, [], ◌∷◌, arith}
use tp2_kernel.Sem.{Sem, Table}
use tp2_kernel.Sem.Fairness.{Call, wait_by, post, Fair, run-Fair}
use tp2_kernel.Sem.Lifetime.{Closing, ksem_close-Closing}

abbrev sample : Sem
sample = record {
  name = 97 ∷ [];
  count = 0;
  refcount = 1;
  unlinked = true;
  destroying = false;
  waiters = 4 ∷ 5 ∷ [];
}

abbrev calls : List Call
calls = wait_by 6 ∷ post ∷ post ∷ []

run-Fair_example : Fair calls (record { sem = sample; through = [] })
run-Fair_example = run-Fair calls (record { sem = sample; through = [] }) (inl refl) (omega arith)

ksem_close-Closing_example : Closing sample
ksem_close-Closing_example = ksem_close-Closing sample

abbrev empty : Table
empty = record { buckets = λ b. []; at = λ a. sample }

abbrev label : List ℕ
label = 109 ∷ 117 ∷ []
