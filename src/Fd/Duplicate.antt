-- ===== src/Fd/Duplicate.antt =====
-- `fd_table_dup2` of Kernel/fs/fd.c and the reference counts.
use tp2_kernel.Base.{
  ℕ, ◌-◌, ◌<◌, ◌≡◌, refl, ap, ◌∙◌, true, false, ◌||◌, Option, none, some, arith, leb, ◌==◌,
  Bool-cases, inl, inr,
}
use tp2_kernel.Fd.{Fds, fd_max, set_entry, file_ref, file_release, dup_onto, fd_table_dup2}
use tp2_kernel.Fd.Counting.{
  holds, holders, holders-one, Covered, Kept, file_ref_count, file_release_count,
  file_release_entries, holders-set_entry, set_entry_others,
}

file_ref_entries : (b : ℕ) (k : Fds) → (file_ref b k).entries ≡ k.entries
unfolding file_ref
file_ref_entries b k = refl

-- The last two writes of `fd_table_dup2`, on a state where the old file has been released.
stored-Kept :
    (t fd a : ℕ) (k k1 : Fds)
    → Covered t k
    → fd < fd_max
    → k1.entries ≡ k.entries
    → ((x : ℕ) → (k1.files x).refcount ≡ (k.files x).refcount - holds x (k.entries t fd))
    → Kept t k (set_entry t fd (some a) (file_ref a k1))
stored-Kept t fd a k k1 c h same less = record {
  counts = λ x.
      let n = holders-set_entry t fd x (some a) (file_ref a k1) h in
      let r = file_ref_count a x k1 in
      let one = holders-one fd_max x fd (k.entries t) h in
      let cx = c x in
      let l = less x in
      let e1 : holds x ((file_ref a k1).entries t fd) ≡ holds x (k.entries t fd) =
        ap {B = ℕ} (λ e. holds x (e t fd)) (file_ref_entries a k1 ∙ same) in
      let e2 : holders fd_max x ((file_ref a k1).entries t) ≡ holders fd_max x (k.entries t) =
        ap {B = ℕ} (λ e. holders fd_max x (e t)) (file_ref_entries a k1 ∙ same) in
      omega (arith, n, r, one, cx, l, e1, e2);
  others = λ u ne.
      set_entry_others t fd u (some a) (file_ref a k1) ne
      ∙ ap (λ e. e u) (file_ref_entries a k1 ∙ same);
}

-- What `fd_table_dup2` does from the release of the new descriptor's file on.
dup_onto-Kept : (t fd a : ℕ) (k : Fds) → Covered t k → fd < fd_max → Kept t k (dup_onto t fd a k)
unfolding dup_onto
dup_onto-Kept t fd a k c h = by_entry (k.entries t fd) refl
  where
    by_entry :
        (o : Option ℕ)
        → k.entries t fd ≡ o
        → Kept t k
            (set_entry t fd (some a) (file_ref a (elim o [ none ↦ k | some b ↦ file_release b k ])))
    by_entry none o = stored-Kept t fd a k k c h refl (λ x. rw o (omega arith))
    by_entry (some b) o =
        stored-Kept t fd a k (file_release b k) c h (file_release_entries b k)
          (λ x. rw o (file_release_count b x k))

dup-run :
    (t oldfd newfd a : ℕ) (k : Fds)
    → (leb fd_max oldfd || leb fd_max newfd) ≡ false
    → k.entries t oldfd ≡ some a
    → (oldfd == newfd) ≡ false
    → fd_table_dup2 t oldfd newfd k ≡ (some newfd, dup_onto t newfd a k)
unfolding fd_table_dup2
dup-run t oldfd newfd a k h e n = rw (h, e) (rw n refl)

dup-same :
    (t oldfd newfd a : ℕ) (k : Fds)
    → (leb fd_max oldfd || leb fd_max newfd) ≡ false
    → k.entries t oldfd ≡ some a
    → (oldfd == newfd) ≡ true
    → fd_table_dup2 t oldfd newfd k ≡ (some newfd, k)
unfolding fd_table_dup2
dup-same t oldfd newfd a k h e n = rw (h, e) (rw n refl)

dup-out :
    (t oldfd newfd : ℕ) (k : Fds)
    → (leb fd_max oldfd || leb fd_max newfd) ≡ true
    → fd_table_dup2 t oldfd newfd k ≡ (none, k)
unfolding fd_table_dup2
dup-out t oldfd newfd k h = rw h refl

dup-none :
    (t oldfd newfd : ℕ) (k : Fds)
    → (leb fd_max oldfd || leb fd_max newfd) ≡ false
    → k.entries t oldfd ≡ none
    → fd_table_dup2 t oldfd newfd k ≡ (none, k)
unfolding fd_table_dup2
dup-none t oldfd newfd k h e = rw (h, e) refl

Kept-refl : (t : ℕ) (k : Fds) → Kept t k k
Kept-refl t k = record { counts = λ a. refl; others = λ u ne. refl }

-- On a table whose entries the counts cover, a call of `fd_table_dup2`, whether it succeeds, fails or
-- has nothing to do, changes the count of each file as the entries that hold it change, even when the
-- two descriptors hold the same file.
pub fd_table_dup2-Kept :
    (t oldfd newfd : ℕ) (k : Fds) → Covered t k → Kept t k (fd_table_dup2 t oldfd newfd k).1
fd_table_dup2-Kept t oldfd newfd k c = elim (Bool-cases (leb fd_max oldfd || leb fd_max newfd)) [
  | inl out ↦ rw (dup-out t oldfd newfd k out) (Kept-refl t k)
  | inr inside ↦ by_entry (k.entries t oldfd) refl inside
]
  where
    by_entry :
        (o : Option ℕ)
        → k.entries t oldfd ≡ o
        → (leb fd_max oldfd || leb fd_max newfd) ≡ false
        → Kept t k (fd_table_dup2 t oldfd newfd k).1
    by_entry none o inside = rw (dup-none t oldfd newfd k inside o) (Kept-refl t k)
    by_entry (some a) o inside = elim (Bool-cases (oldfd == newfd)) [
      | inl y ↦ rw (dup-same t oldfd newfd a k inside o y) (Kept-refl t k)
      | inr ne ↦
          rw (dup-run t oldfd newfd a k inside o ne) (dup_onto-Kept t newfd a k c (ground arith))
    ]
