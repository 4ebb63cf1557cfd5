-- ===== src/WaitResults/Nodes/Uses.antt =====
-- Each use of the linked nodes of Kernel/process/proc.c is the use of a plain list of results.
use tp2_kernel.Base.{
  ℕ, ◌≤◌, ◌≡◌, refl, sym, ap, ap₂, ◌∙◌, subst, true, false, Option, none, some, List, [], ◌∷◌, ◌++◌,
  arith, ◌==◌, ==_self, if◌then◌else◌, update, length, count, count-append, Option-cases, ◌+◌, Bool,
  map, Bool-cases, inl, inr, ℤ,
}
use tp2_kernel.Base.Linked.{find_in, remove_first, walk-Linked, relinked-Linked}
use tp2_kernel.WaitResults.{
  WaitResult, WaitResults, matches, push_wait_result, consume_wait_result, unlink_result,
  consume_pending,
}
use tp2_kernel.WaitResults.Nodes.{
  Nodes, push_node, is_node, drop_node, take_pending, consume_node, Holds, NodeUse, push, consume,
  use_nodes, use_results, Granted,
}
use tp2_kernel.WaitResults.Nodes.Linking.{
  last_of-among, last_of-append, Linked-push, Distinct-push, Distinct-remove_first,
  last_of-remove_first,
}

map-append : (f : ℕ → WaitResult) (l : List ℕ) (a : ℕ) → map f (l ++ a ∷ []) ≡ map f l ++ f a ∷ []
map-append f [] a = refl
map-append f (x ∷ l) a = ap (λ t. f x ∷ t) (map-append f l a)

map-update :
    (f : ℕ → WaitResult) (l : List ℕ) (a : ℕ) (r : WaitResult)
    → count a l ≡ 0
    → map (update f a r) l ≡ map f l
map-update f [] a r z = refl
map-update f (x ∷ l) a r z =
    let apart : (a == x) ≡ false = ground (arith, z) in
    rw apart (ap (λ t. f x ∷ t) (map-update f l a r (ground (arith, z))))

-- The walk takes the result that the walk through a plain list takes.
unlink_result-found :
    (target : ℤ) (f : ℕ → WaitResult) (prev pr : Option ℕ) (c : ℕ) (l : List ℕ)
    → find_in (λ a. matches target (f a)) prev l ≡ (pr, some c)
    → unlink_result target (map f l)
      ≡ (some (f c), map f (remove_first (λ a. matches target (f a)) l))
unfolding unlink_result
unlink_result-found target f prev pr c [] e = absurd cc
unlink_result-found target f prev pr c (x ∷ l) e = elim (Bool-cases (matches target (f x))) [
  | inl t ↦
      let e' : (prev, some x) ≡ (pr, some c) = rw t at e in
      let node : some x ≡ some c = ap (λ v. v.1) e' in
      let same : x ≡ c = ground (arith, node) in rw t (ap (λ u. (some (f u), map f l)) same)
  | inr t ↦
      let ih = unlink_result-found target f (some x) pr c l (rw t at e) in
      rw t (ap₂ (λ u v. (u, f x ∷ v)) (ap (λ v. v.0) ih) (ap (λ v. v.1) ih))
]

unlink_result-missing :
    (target : ℤ) (f : ℕ → WaitResult) (prev pr : Option ℕ) (l : List ℕ)
    → find_in (λ a. matches target (f a)) prev l ≡ (pr, none)
    → (unlink_result target (map f l)).0 ≡ none
unfolding unlink_result
unlink_result-missing target f prev pr [] e = refl
unlink_result-missing target f prev pr (x ∷ l) e = elim (Bool-cases (matches target (f x))) [
  | inl t ↦ let e' : (prev, some x) ≡ (pr, none) = rw t at e in absurd cc
  | inr t ↦ rw t (unlink_result-missing target f (some x) pr l (rw t at e))
]

-- The node that is found is the one that is no more in the list.
count-remove_first :
    (test : ℕ → Bool) (prev pr : Option ℕ) (c : ℕ) (l : List ℕ) (a : ℕ)
    → find_in test prev l ≡ (pr, some c)
    → count a (remove_first test l) + (if c == a then 1 else 0) ≡ count a l
count-remove_first test prev pr c [] a e = absurd cc
count-remove_first test prev pr c (x ∷ l) a e = elim (Bool-cases (test x)) [
  | inl t ↦
      let e' : (prev, some x) ≡ (pr, some c) = rw t at e in
      let node : some x ≡ some c = ap (λ v. v.1) e' in
      let same : x ≡ c = ground (arith, node) in rw (t, same) (omega arith)
  | inr t ↦
      let ih = count-remove_first test (some x) pr c l a (rw t at e) in rw t (omega (arith, ih))
]

-- How often a node is held or was freed.
abbrev pub owned : List ℕ → Nodes → ℕ → ℕ
owned l w a = count a l + count a w.freed

-- The node that a use is granted.
abbrev pub granted : NodeUse → ℕ → ℕ
granted (push none r) a = 0
granted (push (some b) r) a = if b == a then 1 else 0
granted (consume target) a = 0

-- What a use of the nodes comes to, given what it comes to on plain results, and how often each node is
-- then held or was freed.
abbrev pub Used :
    (ℕ → ℕ) → Option (Option WaitResult × Nodes) → Option WaitResult × WaitResults → Type 0
Used nodes u v =
    (l : List ℕ) × (w : Nodes) × (u ≡ some (v.0, w))
    × Holds l w v.1
    × ((a : ℕ) → owned l w a ≡ nodes a)

push_node-Holds :
    (a : ℕ) (r : WaitResult) (l : List ℕ) (w : Nodes) (v : WaitResults)
    → Holds l w v
    → count a l ≡ 0
    → Holds (l ++ a ∷ []) (push_node (some a) r w) (push_wait_result true r v)
unfolding push_node push_wait_result
push_node-Holds a r [] w v h z = rw h.last (record {
  linked = (refl, rw (==_self a) refl);
  distinct = (refl, tt);
  last = refl;
  queue = rw (==_self a) (ap (λ q. q ++ r ∷ []) h.queue);
  pending = h.pending;
})
push_node-Holds a r (x ∷ l) w v h z =
    let (t, e, m) = last_of-among x l in
    let tail : w.tail ≡ some t = h.last ∙ e in
    let filled = map-append (update w.result a r) (x ∷ l) a in
    let kept = map-update w.result (x ∷ l) a r z ∙ h.queue in
    let own : update w.result a r a ≡ r = rw (==_self a) refl in
    rw (tail, push_node)
      (record {
        linked = Linked-push w.next w.head a t x l h.linked h.distinct z e;
        distinct = Distinct-push (x ∷ l) a h.distinct z;
        last = sym (last_of-append none (x ∷ l) a);
        queue = filled ∙ ap₂ (λ q u. q ++ u ∷ []) kept own;
        pending = h.pending;
      })

consume_pending-Used :
    (target : ℤ) (l : List ℕ) (w : Nodes) (v : WaitResults)
    → Holds l w v
    → Used (owned l w) (some (take_pending target w.pending w)) (consume_pending target v)
unfolding consume_pending
consume_pending-Used target l w v h =
    subst (λ o. Used (owned l w) (some (take_pending target o w)) (consume_pending target v))
      (sym h.pending) (by_pending v.pending)
  where
    by_pending :
        (o : Option WaitResult)
        → Used (owned l w) (some (take_pending target o w)) (elim o [
          | none ↦ (none, v)
          | some r ↦ if matches target r then (some r, record v { pending = none }) else (none, v)
        ])
    by_pending none = (l, w, refl, h, λ a. refl)
    by_pending (some r) = elim (Bool-cases (matches target r)) [
      | inl m ↦ rw m (
        l,
        record w { pending = none },
        refl,
        record {
          linked = h.linked;
          distinct = h.distinct;
          last = h.last;
          queue = h.queue;
          pending = refl;
        },
        λ a. refl,
      )
      | inr m ↦ rw m (l, w, refl, h, λ a. refl)
    ]

consume_node-Used :
    (fuel : ℕ) (target : ℤ) (l : List ℕ) (w : Nodes) (v : WaitResults)
    → Holds l w v
    → length l ≤ fuel
    → Used (owned l w) (consume_node fuel target w) (consume_wait_result target v)
unfolding consume_node consume_wait_result
consume_node-Used fuel target l w v h le =
    by_found (find_in (λ a. matches target (w.result a)) none l).0
      (find_in (λ a. matches target (w.result a)) none l).1 refl
  where
    by_found :
        (pr node : Option ℕ)
        → find_in (λ a. matches target (w.result a)) none l ≡ (pr, node)
        → Used (owned l w) (consume_node fuel target w) (consume_wait_result target v)
    by_found pr none e =
        let test = λ (a : ℕ). matches target (w.result a) in
        let run = walk-Linked test fuel none w.head w.next l h.linked le ∙ ap some e in
        let missing =
          ap (λ q. (unlink_result target q).0) (sym h.queue)
          ∙ unlink_result-missing target w.result none pr l e in
        let nodes : consume_node fuel target w ≡ some (take_pending target w.pending w) =
          rw (run, consume_node) refl in
        let plain : consume_wait_result target v ≡ consume_pending target v =
          rw (missing, consume_wait_result) refl in
        subst (λ u. Used (owned l w) u (consume_wait_result target v)) (sym nodes)
          (subst (λ c. Used (owned l w) (some (take_pending target w.pending w)) c) (sym plain)
            (consume_pending-Used target l w v h))
    by_found pr (some c) e =
        let test = λ (a : ℕ). matches target (w.result a) in
        let left = remove_first test l in
        let run = walk-Linked test fuel none w.head w.next l h.linked le ∙ ap some e in
        let found =
          ap (unlink_result target) (sym h.queue)
          ∙ unlink_result-found target w.result none pr c l e in
        let nodes : consume_node fuel target w ≡ some (some (w.result c), drop_node pr c w) =
          rw (run, consume_node) refl in
        let plain : consume_wait_result target v
            ≡ (some (w.result c), record v { queue = map w.result left }) =
          rw (found, consume_wait_result)
            (ap (λ q. (some (w.result c), record v { queue = q })) (ap (λ u. u.1) found)) in
        subst (λ u. Used (owned l w) u (consume_wait_result target v)) (sym nodes)
          (subst (λ c'. Used (owned l w) (some (some (w.result c), drop_node pr c w)) c')
            (sym plain)
            (
              left,
              drop_node pr c w,
              refl,
              record {
                linked = relinked-Linked test c pr w.head w.next l h.linked h.distinct e;
                distinct = (Distinct-remove_first test l h.distinct).0;
                last =
                    ap (λ t. if is_node t c then pr else t) h.last
                    ∙ sym (last_of-remove_first test none pr c l h.distinct e);
                queue = refl;
                pending = h.pending;
              },
              λ a. omega (arith, count-remove_first test none pr c l a e),
            ))

no_node-Holds :
    (r : WaitResult) (l : List ℕ) (w : Nodes) (v : WaitResults)
    → Holds l w v
    → Holds l (push_node none r w) (push_wait_result false r v)
unfolding push_node push_wait_result
no_node-Holds r l w v h = record {
  linked = h.linked;
  distinct = h.distinct;
  last = h.last;
  queue = h.queue;
  pending = refl;
}

push_node_freed : (b : ℕ) (r : WaitResult) (w : Nodes) → (push_node (some b) r w).freed ≡ w.freed
unfolding push_node
push_node_freed b r w = elim (Option-cases w.tail) [
  | inl e ↦ rw (e, push_node) refl
  | inr (t, e) ↦ rw (e, push_node) refl
]

owned-no_node :
    (a : ℕ) (r : WaitResult) (l : List ℕ) (w : Nodes)
    → owned l (push_node none r w) a ≡ owned l w a + 0
unfolding push_node
owned-no_node a r l w = omega arith

owned-push_node :
    (a b : ℕ) (r : WaitResult) (l : List ℕ) (w : Nodes)
    → owned (l ++ b ∷ []) (push_node (some b) r w) a ≡ owned l w a + (if b == a then 1 else 0)
owned-push_node a b r l w = rw (push_node_freed b r w) (omega (arith, count-append a l (b ∷ [])))

-- On nodes that are linked from the head to the tail and hold the results of `v`, of which a walk may
-- visit as many as there are, a push, with a node that is none of them or without one, and a wait, for
-- any target, come to an end, answer what they answer on the plain results, and leave nodes that are
-- linked so and hold the results that are then left. No node is lost or freed twice: each is then held
-- or freed as often as it was before, or once more if it is the one granted.
pub use_nodes-Used :
    (fuel : ℕ) (u : NodeUse) (l : List ℕ) (w : Nodes) (v : WaitResults)
    → Holds l w v
    → length l ≤ fuel
    → Granted u l
    → Used (λ a. owned l w a + granted u a) (use_nodes fuel u w) (use_results u v)
unfolding use_nodes use_results Granted
use_nodes-Used fuel (push none r) l w v h le g =
    (l, push_node none r w, refl, no_node-Holds r l w v h, λ a. owned-no_node a r l w)
use_nodes-Used fuel (push (some b) r) l w v h le g = (
  l ++ b ∷ [],
  push_node (some b) r w,
  refl,
  push_node-Holds b r l w v h g,
  λ a. owned-push_node a b r l w,
)
use_nodes-Used fuel (consume target) l w v h le g =
    let (l', w', e, h', n) = consume_node-Used fuel target l w v h le in
    (l', w', e, h', λ a. omega (arith, n a))
