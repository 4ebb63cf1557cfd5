-- ===== src/Base/Linked.antt =====
-- Lists that are linked through the fields of their nodes: a node is an address, and `next` says where
-- each node leads.
use Prim.Native.Nat.{ℕ, zero, suc, ◌≤◌, ◌<◌}
use mathlib.Core.Path.{◌≡◌, refl, sym, ap, subst}
use mathlib.Core.Logic.{◌⊎◌, inl, inr}
use mathlib.Core.Bool.{Bool, false}
use mathlib.Core.Option.{Option, none, some}
use mathlib.Core.List.{List, [], ◌∷◌}
use native.Mathlib.Omega.{arith}
use tp2_kernel.Base.Tests.{◌==◌, ==_self, if◌then◌else◌, Bool-cases}
use tp2_kernel.Base.Lists.{length, count, update}

-- The walk that a loop makes from the node `cur`, with the node before it, to the first node that passes
-- the test, over at most `n` nodes: that node and the one before it.
unfoldable pub walk :
    (ℕ → Bool) → ℕ → Option ℕ → Option ℕ → (ℕ → Option ℕ) → Option (Option ℕ × Option ℕ)
walk test zero prev none next = some (prev, none)
walk test zero prev (some c) next = none
walk test (suc n) prev none next = some (prev, none)
walk test (suc n) prev (some c) next =
    if test c then some (prev, some c) else walk test n (some c) (next c) next

-- The nodes from `head` on are those of the list.
abbrev pub Linked : (ℕ → Option ℕ) → Option ℕ → List ℕ → Type 0
Linked next head [] = head ≡ none
Linked next head (c ∷ l) = (head ≡ some c) × Linked next (next c) l

-- No node stands twice.
abbrev pub Distinct : List ℕ → Type 0
Distinct [] = Unit
Distinct (c ∷ l) = (count c l ≡ 0) × Distinct l

-- The last node of a list, behind `prev`.
abbrev pub last_of : Option ℕ → List ℕ → Option ℕ
last_of prev [] = prev
last_of prev (c ∷ l) = last_of (some c) l

-- What the walk finds in a list.
abbrev pub find_in : (ℕ → Bool) → Option ℕ → List ℕ → Option ℕ × Option ℕ
find_in test prev [] = (prev, none)
find_in test prev (c ∷ l) = if test c then (prev, some c) else find_in test (some c) l

-- A walk over enough nodes ends.
pub walk-Linked :
    (test : ℕ → Bool) (n : ℕ) (prev head : Option ℕ) (next : ℕ → Option ℕ) (l : List ℕ)
    → Linked next head l
    → length l ≤ n
    → walk test n prev head next ≡ some (find_in test prev l)
unfolding walk
walk-Linked test zero prev head next [] h le = rw h refl
walk-Linked test (suc n) prev head next [] h le = rw h refl
walk-Linked test zero prev head next (c ∷ l) h le = absurd (omega arith)
walk-Linked test (suc n) prev head next (c ∷ l) h le = elim (Bool-cases (test c)) [
  | inl e ↦ rw (h.0, walk, e) refl
  | inr e ↦ rw (h.0, walk, e) (walk-Linked test n (some c) (next c) next l h.1 (omega arith))
]

-- A node that is not in the list may change.
pub Linked-update :
    (next : ℕ → Option ℕ) (head : Option ℕ) (l : List ℕ) (p : ℕ) (target : Option ℕ)
    → count p l ≡ 0
    → Linked next head l
    → Linked (update next p target) head l
Linked-update next head [] p target z h = h
Linked-update next head (c ∷ l) p target z h =
    let apart : (p == c) ≡ false = ground arith in
    let rest : count p l ≡ 0 = ground arith in
    (h.0, rw apart (Linked-update next (next c) l p target rest h.1))

-- A list without the first node that passes the test.
abbrev pub remove_first : (ℕ → Bool) → List ℕ → List ℕ
remove_first test [] = []
remove_first test (c ∷ l) = if test c then l else c ∷ remove_first test l

-- What is left when the link to the node `c`, in a node `q` from `p` on, leads to the node behind `c`.
record Cut (p q : ℕ) (next new : ℕ → Option ℕ) (test : ℕ → Bool) (l : List ℕ) : Type 0 where
  among : (q ≡ p) ⊎ (0 < count q l)
  linked : Linked new (new p) (remove_first test l)

Cut-from :
    (test : ℕ → Bool) (p c : ℕ) (pr : Option ℕ) (next : ℕ → Option ℕ) (l : List ℕ)
    → Linked next (next p) l
    → count p l ≡ 0
    → Distinct l
    → find_in test (some p) l ≡ (pr, some c)
    → (q : ℕ) × (pr ≡ some q) × Cut p q next (update next q (next c)) test l
Cut-from test p c pr next [] h z d e = absurd cc
Cut-from test p c pr next (x ∷ l) h z d e = elim (Bool-cases (test x)) [
  | inl t ↦
      let e' : (some p, some x) ≡ (pr, some c) = rw t at e in
      let same : x ≡ c = ground (arith, ap (λ v. v.1) e') in
      let behind : count p l ≡ 0 = ground arith in
      (
        p,
        sym (ap (λ v. v.0) e'),
        record {
          among = inl refl;
          linked = rw (t, ==_self p, ← same) (Linked-update next (next x) l p (next x) behind h.1);
        },
      )
  | inr t ↦
      let e' : find_in test (some x) l ≡ (pr, some c) = rw t at e in
      let (q, at, cut) = Cut-from test x c pr next l h.1 d.0 d.1 e' in
      let apart : (q == p) ≡ false = elim cut.among [
        | inl s ↦ ground (arith, s)
        | inr s ↦ other q p l s (ground arith)
      ] in
      (
        q,
        at,
        record {
          among = inr (elim cut.among [ inl s ↦ ground (arith, s) | inr s ↦ ground (arith, s) ]);
          linked = rw t (rw apart h.0, cut.linked);
        },
      )
]
  where
    other : (q p : ℕ) (l : List ℕ) → 0 < count q l → count p l ≡ 0 → (q == p) ≡ false
    other q p l s z = elim (Bool-cases (q == p)) [
      | inl e ↦
          let same : q ≡ p = ground arith in absurd (omega (arith, s, z, ap (λ u. count u l) same))
      | inr e ↦ e
    ]

-- The head of the list and the links when the link before `c` leads to `target`.
abbrev pub relinked : Option ℕ → Option ℕ → Option ℕ → (ℕ → Option ℕ) → Option ℕ × (ℕ → Option ℕ)
relinked none target head next = (target, next)
relinked (some p) target head next = (head, update next p target)

-- A walk from the head and the change of one link take the first node that passes the test out.
pub relinked-Linked :
    (test : ℕ → Bool) (c : ℕ) (pr head : Option ℕ) (next : ℕ → Option ℕ) (l : List ℕ)
    → Linked next head l
    → Distinct l
    → find_in test none l ≡ (pr, some c)
    → Linked
        (relinked pr (next c) head next).1
        (relinked pr (next c) head next).0
        (remove_first test l)
relinked-Linked test c pr head next [] h d e = absurd cc
relinked-Linked test c pr head next (x ∷ l) h d e = elim (Bool-cases (test x)) [
  | inl t ↦
      let e' : (none, some x) ≡ (pr, some c) = rw t at e in
      let first : none ≡ pr = ap (λ v. v.0) e' in
      let same : x ≡ c = ground (arith, ap (λ v. v.1) e') in rw (t, ← first, ← same) h.1
  | inr t ↦
      let e' : find_in test (some x) l ≡ (pr, some c) = rw t at e in
      let (q, at, cut) = Cut-from test x c pr next l h.1 d.0 d.1 e' in
      rw t (
        subst
          (λ u.
            Linked (relinked u (next c) head next).1 (relinked u (next c) head next).0
              (x ∷ remove_first test l))
          (sym at) (h.0, cut.linked))
]

pub find_in-missing :
    (test : ℕ → Bool) (prev pr : Option ℕ) (l : List ℕ)
    → find_in test prev l ≡ (pr, none)
    → remove_first test l ≡ l
find_in-missing test prev pr [] e = refl
find_in-missing test prev pr (x ∷ l) e = elim (Bool-cases (test x)) [
  | inl t ↦ let e' : (prev, some x) ≡ (pr, none) = rw t at e in absurd cc
  | inr t ↦
      let e' : find_in test (some x) l ≡ (pr, none) = rw t at e in
      rw t (ap (λ r. x ∷ r) (find_in-missing test (some x) pr l e'))
]
