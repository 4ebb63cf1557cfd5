-- ===== src/WaitResults/Nodes/Linking.antt =====
-- What the links between the nodes of the wait results of Kernel/process/proc.c hold after each use.
use tp2_kernel.Base.{
  ℕ, ◌<◌, ◌≡◌, refl, sym, ap, ◌∙◌, Bool, true, false, Option, none, some, List, [], ◌∷◌, ◌++◌,
  arith, ◌==◌, ==_self, if◌then◌else◌, update, count, count-append, Bool-cases, inl, inr,
}
use tp2_kernel.Base.Linked.{Linked, Distinct, last_of, find_in, remove_first}
use tp2_kernel.WaitResults.Nodes.{is_node}

-- The last node of a list is in the list.
pub last_of-among :
    (x : ℕ) (l : List ℕ) → (t : ℕ) × (last_of (some x) l ≡ some t) × (0 < count t (x ∷ l))
last_of-among x [] = (x, refl, rw (==_self x) (omega arith))
last_of-among x (y ∷ l) = let (t, e, h) = last_of-among y l in (t, e, ground (arith, h))

pub last_of-append : (prev : Option ℕ) (l : List ℕ) (a : ℕ) → last_of prev (l ++ a ∷ []) ≡ some a
last_of-append prev [] a = refl
last_of-append prev (x ∷ l) a = last_of-append (some x) l a

-- A node linked behind the last one.
pub Linked-push :
    (next : ℕ → Option ℕ) (head : Option ℕ) (a t x : ℕ) (l : List ℕ)
    → Linked next head (x ∷ l)
    → Distinct (x ∷ l)
    → count a (x ∷ l) ≡ 0
    → last_of (some x) l ≡ some t
    → Linked (update (update next a none) t (some a)) head ((x ∷ l) ++ a ∷ [])
Linked-push next head a t x [] h d z e =
    let same : x ≡ t = ground (arith, e) in
    let apart : (t == a) ≡ false = ground (arith, same) in
    let here : (t == x) ≡ true = rw same (==_self t) in
    (h.0, (rw here refl, rw (apart, ==_self a) refl))
Linked-push next head a t x (y ∷ l) h d z e =
    let (u, f, m) = last_of-among y l in
    let same : t ≡ u = ground (arith, sym e ∙ f) in
    let apart : (t == x) ≡ false = before x t u (y ∷ l) same m d.0 in
    let other : (a == x) ≡ false = ground (arith, z) in
    let rest : count a (y ∷ l) ≡ 0 = ground (arith, z) in
    (h.0, rw (apart, other) (Linked-push next (next x) a t y l h.1 d.1 rest e))
  where
    before : (x t u : ℕ) (l : List ℕ) → t ≡ u → 0 < count u l → count x l ≡ 0 → (t == x) ≡ false
    before x t u l same m z = elim (Bool-cases (t == x)) [
      | inl e ↦
          let s : t ≡ x = ground arith in
          absurd (omega (arith, m, z, ap (λ v. count v l) (sym same ∙ s)))
      | inr e ↦ e
    ]

pub Distinct-push : (l : List ℕ) (a : ℕ) → Distinct l → count a l ≡ 0 → Distinct (l ++ a ∷ [])
Distinct-push [] a d z = (refl, tt)
Distinct-push (x ∷ l) a d z =
    let apart : (a == x) ≡ false = ground (arith, z) in
    let one : count x (a ∷ []) ≡ 0 = rw apart refl in
    (omega (arith, count-append x l (a ∷ []), d.0, one), Distinct-push l a d.1 (ground (arith, z)))

pub Distinct-remove_first :
    (test : ℕ → Bool) (l : List ℕ)
    → Distinct l
    → Distinct (remove_first test l) × ((x : ℕ) → count x l ≡ 0 → count x (remove_first test l) ≡ 0)
Distinct-remove_first test [] d = (tt, λ x z. z)
Distinct-remove_first test (c ∷ l) d = elim (Bool-cases (test c)) [
  | inl t ↦ rw t (d.1, λ x z. ground (arith, z))
  | inr t ↦
      let ih = Distinct-remove_first test l d.1 in
      rw t (
        (ih.1 c d.0, ih.0),
        λ x z. let left = ih.1 x (ground (arith, z)) in ground (arith, z, left),
      )
]

-- Where the tail is when the walk's node is taken out.
pub last_of-remove_first :
    (test : ℕ → Bool) (prev pr : Option ℕ) (c : ℕ) (l : List ℕ)
    → Distinct l
    → find_in test prev l ≡ (pr, some c)
    → last_of prev (remove_first test l)
      ≡ (if is_node (last_of prev l) c then pr else last_of prev l)
last_of-remove_first test prev pr c [] d e = absurd cc
last_of-remove_first test prev pr c (x ∷ l) d e = elim (Bool-cases (test x)) [
  | inr t ↦ rw t (last_of-remove_first test (some x) pr c l d.1 (rw t at e))
  | inl t ↦
      let e' : (prev, some x) ≡ (pr, some c) = rw t at e in
      let node : some x ≡ some c = ap (λ v. v.1) e' in
      let same : x ≡ c = ground (arith, node) in
      rw t (by_rest l prev pr x c (ap (λ v. v.0) e') same d.0)
]
  where
    by_rest :
        (l : List ℕ) (prev pr : Option ℕ) (x c : ℕ)
        → prev ≡ pr
        → x ≡ c
        → count x l ≡ 0
        → last_of prev l ≡ (if is_node (last_of (some x) l) c then pr else last_of (some x) l)
    by_rest [] prev pr x c p s z = rw (s, ==_self c) p
    by_rest (y ∷ l) prev pr x c p s z =
        let (t, e, m) = last_of-among y l in
        let apart : (t == c) ≡ false = elim (Bool-cases (t == c)) [
          | inl i ↦
              let at : t ≡ c = ground arith in
              absurd (omega (arith, m, z, ap (λ v. count v (y ∷ l)) (at ∙ sym s)))
          | inr i ↦ i
        ] in
        rw (e, apart) refl
