-- ===== src/WaitResults/Refinement.antt =====
-- The held results as one sequence: what the wait results of Kernel/process/proc.c implement.
use tp2_kernel.Base.{
  ◌≡◌, refl, ap, ap₂, sym, ◌∙◌, true, Option, none, some, List, [], ◌∷◌, ◌++◌, append-nil,
  if◌then◌else◌, ℤ, Bool-cases, Option-cases, inl, inr,
}
use tp2_kernel.WaitResults.{
  WaitResult, WaitResults, matches, push_wait_result, unlink_result, consume_pending,
  consume_wait_result,
}

abbrev pub optional : Option WaitResult → List WaitResult
optional none = []
optional (some r) = r ∷ []

-- The results that a process holds, in the order in which a wait for any child gives them.
abbrev pub held : WaitResults → List WaitResult
held w = w.queue ++ optional w.pending

-- The specification of a wait: the first result that matches, taken out of the sequence.
pub take_first : ℤ → List WaitResult → Option WaitResult × List WaitResult
take_first target [] = (none, [])
take_first target (r ∷ rs) =
    let (found, rest) = take_first target rs in
    if matches target r then (some r, rs) else (found, r ∷ rest)

unlink_result-is_take_first :
    (target : ℤ) (q : List WaitResult) → unlink_result target q ≡ take_first target q
unfolding unlink_result take_first
unlink_result-is_take_first target [] = refl
unlink_result-is_take_first target (r ∷ q) = rw (unlink_result-is_take_first target q) refl

-- A result found in front is taken from the front; otherwise the search goes on behind.
take_first-append-found :
    (target : ℤ) (xs ys : List WaitResult) (r : WaitResult)
    → (take_first target xs).0 ≡ some r
    → take_first target (xs ++ ys) ≡ (some r, (take_first target xs).1 ++ ys)
unfolding take_first
take_first-append-found target [] ys r e = cc
take_first-append-found target (x ∷ xs) ys r e = elim (Bool-cases (matches target x)) [
  | inl f ↦ let e' : some x ≡ some r = rw f at e in rw f cc
  | inr f ↦
      let e' : (take_first target xs).0 ≡ some r = rw f at e in
      rw (f, take_first-append-found target xs ys r e') refl
]

take_first-append-missing :
    (target : ℤ) (xs ys : List WaitResult)
    → (take_first target xs).0 ≡ none
    → take_first target (xs ++ ys) ≡ ((take_first target ys).0, xs ++ (take_first target ys).1)
unfolding take_first
take_first-append-missing target [] ys e = refl
take_first-append-missing target (x ∷ xs) ys e = elim (Bool-cases (matches target x)) [
  | inl f ↦ let e' : some x ≡ none = rw f at e in cc
  | inr f ↦
      let e' : (take_first target xs).0 ≡ none = rw f at e in
      rw (f, take_first-append-missing target xs ys e') refl
]

pub take_first-missing :
    (target : ℤ) (xs : List WaitResult)
    → (take_first target xs).0 ≡ none
    → (take_first target xs).1 ≡ xs
unfolding take_first
take_first-missing target [] e = refl
take_first-missing target (x ∷ xs) e = elim (Bool-cases (matches target x)) [
  | inl f ↦ let e' : some x ≡ none = rw f at e in cc
  | inr f ↦
      let e' : (take_first target xs).0 ≡ none = rw f at e in
      rw (f, take_first-missing target xs e') refl
]

-- What matches nowhere matches in no part.
pub take_first-none-append :
    (target : ℤ) (xs ys : List WaitResult)
    → (take_first target (xs ++ ys)).0 ≡ none
    → (take_first target ys).0 ≡ none
unfolding take_first
take_first-none-append target [] ys e = e
take_first-none-append target (x ∷ xs) ys e = elim (Bool-cases (matches target x)) [
  | inl f ↦ let e' : some x ≡ none = rw f at e in cc
  | inr f ↦ take_first-none-append target xs ys (rw f at e)
]

pub consume_pending-is_take_first :
    (target : ℤ) (w : WaitResults)
    → let (r, w') = consume_pending target w in
      (r ≡ (take_first target (optional w.pending)).0)
      × (w'.queue ≡ w.queue)
      × (optional w'.pending ≡ (take_first target (optional w.pending)).1)
unfolding consume_pending take_first
consume_pending-is_take_first target w = elim (Option-cases w.pending) [
  | inl e ↦ rw e (refl, refl, refl)
  | inr (r, e) ↦ elim (Bool-cases (matches target r)) [
    | inl f ↦ rw (e, f) (refl, refl, refl)
    | inr f ↦ rw (e, f) (refl, refl, refl)
  ]
]

consume_wait_result_found :
    (target : ℤ) (w : WaitResults) (r : WaitResult)
    → (take_first target w.queue).0 ≡ some r
    → consume_wait_result target w ≡ (some r, record w { queue = (take_first target w.queue).1 })
unfolding consume_wait_result take_first
consume_wait_result_found target w r e =
    let same = unlink_result-is_take_first target w.queue in
    rw (same, consume_wait_result) (rw (same, e) refl)

consume_wait_result_missing :
    (target : ℤ) (w : WaitResults)
    → (take_first target w.queue).0 ≡ none
    → consume_wait_result target w ≡ consume_pending target w
unfolding consume_wait_result
consume_wait_result_missing target w e =
    let same = unlink_result-is_take_first target w.queue in
    rw (same, consume_wait_result) (rw e refl)

-- `consume_wait_result` takes the first result that matches out of the sequence of the held ones, the one
-- without a node being the last, and gives none, with nothing changed, exactly if none matches.
pub consume_wait_result-refines :
    (target : ℤ) (w : WaitResults)
    → let (r, w') = consume_wait_result target w in
      (r ≡ (take_first target (held w)).0) × (held w' ≡ (take_first target (held w)).1)
consume_wait_result-refines target w = elim (Option-cases (take_first target w.queue).0) [
  | inl e ↦
      let p = consume_pending-is_take_first target w in
      rw
        (
          consume_wait_result_missing target w e,
          take_first-append-missing target w.queue (optional w.pending) e,
        )
        (p.0, ap₂ (λ q o. q ++ o) p.1 p.2)
  | inr (r, e) ↦
      rw
        (
          consume_wait_result_found target w r e,
          take_first-append-found target w.queue (optional w.pending) r e,
        )
        (refl, refl)
]

-- After a wait that found nothing, the result without a node does not fit either.
pub consume_pending-after :
    (target : ℤ) (w : WaitResults)
    → (consume_wait_result target w).0 ≡ none
    → (consume_pending target (consume_wait_result target w).1).0 ≡ none
consume_pending-after target w e =
    let c = consume_wait_result-refines target w in
    let w' = (consume_wait_result target w).1 in
    let missing : (take_first target (held w)).0 ≡ none = sym c.0 ∙ e in
    let same : held w' ≡ held w = c.1 ∙ take_first-missing target (held w) missing in
    (consume_pending-is_take_first target w').0
    ∙ take_first-none-append target w'.queue (optional w'.pending)
        (ap (λ h. (take_first target h).0) same ∙ missing)

-- A wait that finds nothing leaves everything as it was.
pub consume_wait_result-none :
    (target : ℤ) (w : WaitResults)
    → (consume_wait_result target w).0 ≡ none
    → (consume_wait_result target w).1 ≡ w
unfolding consume_pending
consume_wait_result-none target w e = elim (Option-cases (take_first target w.queue).0) [
  | inr (r, u) ↦ let no : some r ≡ none = rw (consume_wait_result_found target w r u) at e in cc
  | inl u ↦
      let e' : (consume_pending target w).0 ≡ none =
        rw (consume_wait_result_missing target w u) at e in
      rw (consume_wait_result_missing target w u) (kept w.pending refl e')
]
  where
    kept :
        (o : Option WaitResult)
        → w.pending ≡ o
        → (consume_pending target w).0 ≡ none
        → (consume_pending target w).1 ≡ w
    kept none q e' = rw (q, consume_pending) (ap (λ o. record w { pending = o }) q)
    kept (some r) q e' = elim (Bool-cases (matches target r)) [
      | inl f ↦ let no : some r ≡ none = rw (q, consume_pending, f) at e' in cc
      | inr f ↦ rw (q, consume_pending, f) (ap (λ o. record w { pending = o }) q)
    ]

-- A result with a node goes to the end of the held ones, if none waits without a node.
pub held-push_wait_result :
    (r : WaitResult) (w : WaitResults)
    → w.pending ≡ none
    → held (push_wait_result true r w) ≡ held w ++ r ∷ []
unfolding push_wait_result
held-push_wait_result r w e =
    rw e (append-nil (w.queue ++ r ∷ []) ∙ ap (λ q. q ++ r ∷ []) (sym (append-nil w.queue)))
