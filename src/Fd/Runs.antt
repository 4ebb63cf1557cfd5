-- ===== src/Fd/Runs.antt =====
-- Runs of Kernel/fs/fd.c: descriptors 0 and 1 of table 7 share the file at 100.
use tp2_kernel.Base.{ℕ, ◌≡◌, refl, true, false, Option, none, some, [], ◌==◌, if◌then◌else◌}
use tp2_kernel.Fd.{Fds, fd_tty, fd_table_close, fd_table_dup2, file_release, set_entry}
use tp2_kernel.Fd.Counting.{Covered, Kept, holders_le}
use tp2_kernel.Fd.Duplicate.{fd_table_dup2-Kept}

abbrev shared : ℕ → Option ℕ
shared fd = if fd == 0 then some 100 else if fd == 1 then some 100 else none

abbrev sample : Fds
sample = record {
  files = λ a. record {
    type = fd_tty;
    ptr = 1;
    can_read = true;
    can_write = true;
    fg_read_guard = false;
    refcount = 64;
  };
  entries = λ t. shared;
  closed = [];
  stdin_file = none;
  stdout_file = none;
  stderr_file = none;
}

sample-Covered : Covered 7 sample
sample-Covered a = holders_le 64 a shared

close_runs : fd_table_close 7 1 sample ≡ (some 0, file_release 100 (set_entry 7 1 none sample))
unfolding fd_table_close
close_runs = refl

fd_table_dup2-Kept_example : Kept 7 sample (fd_table_dup2 7 0 1 sample).1
fd_table_dup2-Kept_example = fd_table_dup2-Kept 7 0 1 sample sample-Covered
