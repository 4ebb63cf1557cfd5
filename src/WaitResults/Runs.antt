-- ===== src/WaitResults/Runs.antt =====
-- Runs of the wait results of Kernel/process/proc.c: children 4, 5 and 4 again.
use tp2_kernel.Base.{ℕ, ◌≡◌, refl, none, some, [], ◌∷◌, pos}
use tp2_kernel.WaitResults.{WaitResult, consume_wait_result, unlink_result}

abbrev result : ℕ → ℕ → WaitResult
result pid code = record { child_pid = pid; exit_code = pos code }

consume_wait_result_other :
    consume_wait_result (pos 5) (record { queue = result 4 0 ∷ result 5 1 ∷ []; pending = none })
    ≡ (some (result 5 1), record { queue = result 4 0 ∷ []; pending = none })
unfolding consume_wait_result unlink_result
consume_wait_result_other = refl
