-- ===== src/Sem/Handles/Runs.antt =====
-- Runs of the handles of semaphores in Kernel/sys/syscalls.c: process 7 has the first entry.
use tp2_kernel.Base.{◌≡◌, refl, false, some, none, [], ◌==◌, if◌then◌else◌}
use tp2_kernel.Sem.Handles.{Handles, sys_sem_open, sys_sem_close, sem_handle_detach}

abbrev seven : Handles
seven = record {
  table = record {
    buckets = λ b. [];
    at = λ a. record {
      name = [];
      count = 0;
      refcount = 1;
      unlinked = false;
      destroying = false;
      waiters = [];
    };
  };
  entries = λ i. if i == 0 then some (record { sem = 40; owner_pid = 7 }) else none;
}

-- Without a current process no handle is given, and a handle that is out of range is refused.
sys_sem_open_refused : (sys_sem_open none [] 1 none (λ t. t) seven).0 ≡ none
unfolding sys_sem_open
sys_sem_open_refused = refl

sys_sem_close_refused : (sys_sem_close 200 seven).0 ≡ false
unfolding sys_sem_close sem_handle_detach
sys_sem_close_refused = refl
