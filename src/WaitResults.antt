-- ===== src/WaitResults.antt =====
-- The results of ended children that a process holds for `proc_wait`: `push_wait_result`,
-- `consume_wait_result` and `cleanup_wait_results` of Kernel/process/proc.c.
-- Here the nodes from `wait_res_head` to `wait_res_tail` are one list; Nodes has the nodes
-- and their links. `pending_exit_pid` and `pending_exit_code` are read only while `pending_exit_valid`
-- holds, so the three are one `Option`.
pub mod Refinement
pub mod Nodes
mod Runs
use tp2_kernel.Base.{
  ℕ, zero, suc, Bool, true, false, Option, none, some, List, [], ◌∷◌, ◌++◌, ◌==◌, if◌then◌else◌, ℤ,
  pos, negsuc,
}

-- `wait_result_t`
pub record WaitResult : Type 0 where
  pub child_pid : ℕ
  pub exit_code : ℤ

pub record WaitResults : Type 0 where
  pub queue : List WaitResult
  pub pending : Option WaitResult

abbrev pub no_results : WaitResults
no_results = record { queue = []; pending = none }

-- The test of a result against `target_pid`, of which every number up to 0 is any child.
abbrev pub matches : ℤ → WaitResult → Bool
matches (pos zero) r = true
matches (pos (suc n)) r = r.child_pid == suc n
matches (negsuc n) r = true

-- `push_wait_result`, with what `mm_malloc` says to the node.
pub push_wait_result : Bool → WaitResult → WaitResults → WaitResults
push_wait_result true r w = record w { queue = w.queue ++ r ∷ [] }
push_wait_result false r w = record w { pending = some r }

-- The walk through the nodes: the first that matches, and the queue without it.
pub unlink_result : ℤ → List WaitResult → Option WaitResult × List WaitResult
unlink_result target [] = (none, [])
unlink_result target (r ∷ queue) =
    let (found, rest) = unlink_result target queue in
    if matches target r then (some r, queue) else (found, r ∷ rest)

-- The last part of `consume_wait_result`: the result that waits without a node.
pub consume_pending : ℤ → WaitResults → Option WaitResult × WaitResults
consume_pending target w = elim w.pending [
  | none ↦ (none, w)
  | some r ↦ if matches target r then (some r, record w { pending = none }) else (none, w)
]

-- `consume_wait_result`: the result, `none` for -1, and what is left.
pub consume_wait_result : ℤ → WaitResults → Option WaitResult × WaitResults
unfolding unlink_result consume_pending
consume_wait_result target w =
    let (found, rest) = unlink_result target w.queue in
    elim found [ none ↦ consume_pending target w | some r ↦ (some r, record w { queue = rest }) ]

pub cleanup_wait_results : WaitResults → WaitResults
cleanup_wait_results w = no_results
