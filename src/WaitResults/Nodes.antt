-- ===== src/WaitResults/Nodes.antt =====
-- `push_wait_result` and `consume_wait_result` of Kernel/process/proc.c on the nodes that they link:
-- `wait_res_head`, `wait_res_tail`, and the fields of each node. A node is an address; the walk is given
-- the number of nodes it visits at most.
pub mod Linking
pub mod Uses
mod Runs
use tp2_kernel.Base.{
  ℕ, ◌≡◌, Bool, true, false, Option, none, some, List, [], ◌∷◌, ◌==◌, if◌then◌else◌, update, length,
  count, map, ℤ,
}
use tp2_kernel.Base.Linked.{walk, relinked, Linked, Distinct, last_of}
use tp2_kernel.WaitResults.{WaitResult, WaitResults, matches, push_wait_result, consume_wait_result}

-- The fields `wait_res_head`, `wait_res_tail` and `pending_exit_*` of a process, the nodes, and those that
-- were given to `mm_free`, the last one first.
pub record Nodes : Type 0 where
  pub head : Option ℕ
  pub tail : Option ℕ
  pub next : ℕ → Option ℕ
  pub result : ℕ → WaitResult
  pub pending : Option WaitResult
  pub freed : List ℕ

-- `push_wait_result`, with the node that `mm_malloc` grants.
pub push_node : Option ℕ → WaitResult → Nodes → Nodes
push_node none r w = record w { pending = some r }
push_node (some a) r w =
    let w' = record w { result = update w.result a r; next = update w.next a none } in
    elim w.tail [
      | none ↦ record w' { head = some a; tail = some a }
      | some t ↦ record w' { next = update w'.next t (some a); tail = some a }
    ]

-- `wait_res_tail == node`
abbrev pub is_node : Option ℕ → ℕ → Bool
is_node none a = false
is_node (some t) a = t == a

-- The node `a` taken out behind `prev`, and freed.
abbrev pub drop_node : Option ℕ → ℕ → Nodes → Nodes
drop_node prev a w = record w {
  head = (relinked prev (w.next a) w.head w.next).0;
  next = (relinked prev (w.next a) w.head w.next).1;
  tail = if is_node w.tail a then prev else w.tail;
  freed = a ∷ w.freed;
}

-- The last part of `consume_wait_result`.
abbrev pub take_pending : ℤ → Option WaitResult → Nodes → Option WaitResult × Nodes
take_pending target none w = (none, w)
take_pending target (some r) w =
    if matches target r then (some r, record w { pending = none }) else (none, w)

-- `consume_wait_result`. For a target up to 0 every node matches, so that the walk ends at the head.
pub consume_node : ℕ → ℤ → Nodes → Option (Option WaitResult × Nodes)
unfolding walk
consume_node fuel target w =
    elim (walk (λ a. matches target (w.result a)) fuel none w.head w.next) [
      | none ↦ none
      | some (prev, node) ↦ elim node [
        | none ↦ some (take_pending target w.pending w)
        | some a ↦ some (some (w.result a), drop_node prev a w)
      ]
    ]

-- The nodes of the list hold the results of `v`: they are linked from the head to the tail, and each
-- stands once.
pub record Holds (l : List ℕ) (w : Nodes) (v : WaitResults) : Type 0 where
  pub linked : Linked w.next w.head l
  pub distinct : Distinct l
  pub last : w.tail ≡ last_of none l
  pub queue : map w.result l ≡ v.queue
  pub pending : w.pending ≡ v.pending

-- A use of the results, with the node that a push is granted.
pub data NodeUse : Type 0 where
  push : Option ℕ → WaitResult → NodeUse
  consume : ℤ → NodeUse

-- What a use answers, and what it leaves.
pub use_nodes : ℕ → NodeUse → Nodes → Option (Option WaitResult × Nodes)
use_nodes fuel (push a r) w = some (none, push_node a r w)
use_nodes fuel (consume target) w = consume_node fuel target w

pub use_results : NodeUse → WaitResults → Option WaitResult × WaitResults
use_results (push none r) v = (none, push_wait_result false r v)
use_results (push (some a) r) v = (none, push_wait_result true r v)
use_results (consume target) v = consume_wait_result target v

-- A node that is granted is none of those that are held.
pub Granted : NodeUse → List ℕ → Type 0
Granted (push none r) l = Unit
Granted (push (some a) r) l = count a l ≡ 0
Granted (consume target) l = Unit
