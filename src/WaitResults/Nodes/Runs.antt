-- ===== src/WaitResults/Nodes/Runs.antt =====
-- Nodes of wait results of Kernel/process/proc.c: children 4 and 5 at the addresses 100 and 200.
use tp2_kernel.Base.{ℕ, ◌+◌, refl, none, some, [], ◌∷◌, arith, ◌==◌, if◌then◌else◌, pos}
use tp2_kernel.WaitResults.{WaitResult, WaitResults}
use tp2_kernel.WaitResults.Nodes.{Nodes, Holds, consume, use_nodes, use_results, Granted}
use tp2_kernel.WaitResults.Nodes.Uses.{Used, owned, granted, use_nodes-Used}

abbrev child : ℕ → WaitResult
child pid = record { child_pid = pid; exit_code = pos 0 }

abbrev two_nodes : Nodes
two_nodes = record {
  head = some 100;
  tail = some 200;
  next = λ a. if a == 100 then some 200 else none;
  result = λ a. if a == 100 then child 4 else child 5;
  pending = none;
  freed = [];
}

abbrev two_results : WaitResults
two_results = record { queue = child 4 ∷ child 5 ∷ []; pending = none }

two_nodes-Holds : Holds (100 ∷ 200 ∷ []) two_nodes two_results
two_nodes-Holds = record {
  linked = (refl, (refl, refl));
  distinct = (refl, (refl, tt));
  last = refl;
  queue = refl;
  pending = refl;
}

-- Child 5, which is the last one, is waited for.
use_nodes-Used_example :
    Used
      (λ a. owned (100 ∷ 200 ∷ []) two_nodes a + granted (consume (pos 5)) a)
      (use_nodes 2 (consume (pos 5)) two_nodes)
      (use_results (consume (pos 5)) two_results)
unfolding Granted
use_nodes-Used_example =
    use_nodes-Used 2 (consume (pos 5)) (100 ∷ 200 ∷ []) two_nodes two_results two_nodes-Holds
      (omega arith) tt
