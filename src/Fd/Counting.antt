-- ===== src/Fd/Counting.antt =====
-- The reference counts of Kernel/fs/fd.c against the entries of the tables.
use tp2_kernel.Base.{
  ℕ, zero, suc, ◌+◌, ◌-◌, ◌<◌, ◌≤◌, ◌≡◌, ◌≢◌, refl, sym, ap, ◌∙◌, true, false, Option, none, some,
  arith, leb, ◌==◌, ==_self, if◌then◌else◌, update, Bool-cases, inl, inr,
}
use tp2_kernel.Fd.{Fds, fd_max, set_entry, file_ref, file_release, fd_table_close}

-- 1 for an entry that holds the file.
abbrev pub holds : ℕ → Option ℕ → ℕ
holds a none = 0
holds a (some b) = if b == a then 1 else 0

-- How many of the first `n` entries hold the file.
pub holders : ℕ → ℕ → (ℕ → Option ℕ) → ℕ
holders zero a e = 0
holders (suc n) a e = holders n a e + holds a (e n)

holders-out :
    (n a fd : ℕ) (e : ℕ → Option ℕ) (v : Option ℕ)
    → n ≤ fd
    → holders n a (update e fd v) ≡ holders n a e
unfolding holders
holders-out zero a fd e v h = refl
holders-out (suc n) a fd e v h =
    let ih = holders-out n a fd e v (omega arith) in
    let ne : (fd == n) ≡ false = ground arith in rw (ih, ne) refl

-- Writing one entry.
pub holders-update :
    (n a fd : ℕ) (e : ℕ → Option ℕ) (v : Option ℕ)
    → fd < n
    → holders n a (update e fd v) + holds a (e fd) ≡ holders n a e + holds a v
unfolding holders
holders-update zero a fd e v h = absurd (omega arith)
holders-update (suc n) a fd e v h = elim (Bool-cases (fd == n)) [
  | inl y ↦
      let same : fd ≡ n = ground arith in
      let ih = holders-out n a fd e v (omega arith) in
      let new : holds a (update e fd v n) ≡ holds a v = rw y refl in
      let old : holds a (e fd) ≡ holds a (e n) = ap {B = ℕ} (λ i. holds a (e i)) same in
      omega (arith, ih, new, old)
  | inr ne ↦ let ih = holders-update n a fd e v (ground arith) in rw ne (omega (arith, ih))
]

pub holders-one : (n a fd : ℕ) (e : ℕ → Option ℕ) → fd < n → holds a (e fd) ≤ holders n a e
unfolding holders
holders-one zero a fd e h = absurd (omega arith)
holders-one (suc n) a fd e h = elim (Bool-cases (fd == n)) [
  | inl y ↦ let same : fd ≡ n = ground arith in rw same (omega arith)
  | inr ne ↦ let ih = holders-one n a fd e (ground arith) in omega (arith, ih)
]

pub holders_le : (n a : ℕ) (e : ℕ → Option ℕ) → holders n a e ≤ n
unfolding holders
holders_le zero a e = omega arith
holders_le (suc n) a e =
    let ih = holders_le n a e in let one = holds_le a (e n) in omega (arith, ih, one)
  where
    holds_le : (a : ℕ) (o : Option ℕ) → holds a o ≤ 1
    holds_le a none = omega arith
    holds_le a (some b) = ground arith

-- The counts cover the entries of the table.
abbrev pub Covered : ℕ → Fds → Type 0
Covered t k = (a : ℕ) → holders fd_max a (k.entries t) ≤ (k.files a).refcount

-- The count of every file changes as the number of entries of the table that hold it does, and no
-- other table changes.
pub record Kept (t : ℕ) (k k' : Fds) : Type 0 where
  pub counts :
      (a : ℕ)
      → (k'.files a).refcount + holders fd_max a (k.entries t)
        ≡ (k.files a).refcount + holders fd_max a (k'.entries t)
  pub others : (u : ℕ) → u ≢ t → k'.entries u ≡ k.entries u

pub file_ref_count :
    (b a : ℕ) (k : Fds)
    → ((file_ref b k).files a).refcount ≡ (k.files a).refcount + holds a (some b)
unfolding file_ref
file_ref_count b a k = elim (Bool-cases (b == a)) [
  | inl y ↦ let same : b ≡ a = ground arith in rw same (rw (==_self a) refl)
  | inr ne ↦ rw ne (omega arith)
]

file_release_files :
    (b : ℕ) (k : Fds)
    → (file_release b k).files
      ≡ update k.files b (record (k.files b) { refcount = (k.files b).refcount - 1 })
unfolding file_release
file_release_files b k = ground arith

pub file_release_entries : (b : ℕ) (k : Fds) → (file_release b k).entries ≡ k.entries
unfolding file_release
file_release_entries b k = ground arith

pub file_release_count :
    (b a : ℕ) (k : Fds)
    → ((file_release b k).files a).refcount ≡ (k.files a).refcount - holds a (some b)
file_release_count b a k = rw (file_release_files b k) (elim (Bool-cases (b == a)) [
  | inl y ↦ let same : b ≡ a = ground arith in rw same (rw (==_self a) refl)
  | inr ne ↦ rw ne (omega arith)
])

pub holders-set_entry :
    (t fd a : ℕ) (v : Option ℕ) (k : Fds)
    → fd < fd_max
    → holders fd_max a ((set_entry t fd v k).entries t) + holds a (k.entries t fd)
      ≡ holders fd_max a (k.entries t) + holds a v
holders-set_entry t fd a v k h = rw (==_self t) (holders-update fd_max a fd (k.entries t) v h)

pub set_entry_others :
    (t fd u : ℕ) (v : Option ℕ) (k : Fds) → u ≢ t → (set_entry t fd v k).entries u ≡ k.entries u
set_entry_others t fd u v k h = let ne : (t == u) ≡ false = ground arith in rw ne refl

close-some :
    (t fd a : ℕ) (k : Fds)
    → leb fd_max fd ≡ false
    → k.entries t fd ≡ some a
    → fd_table_close t fd k ≡ (some 0, file_release a (set_entry t fd none k))
unfolding fd_table_close
close-some t fd a k h e = rw (h, e) refl

close-out : (t fd : ℕ) (k : Fds) → leb fd_max fd ≡ true → fd_table_close t fd k ≡ (none, k)
unfolding fd_table_close
close-out t fd k h = rw h refl

close-none :
    (t fd : ℕ) (k : Fds)
    → leb fd_max fd ≡ false
    → k.entries t fd ≡ none
    → fd_table_close t fd k ≡ (none, k)
unfolding fd_table_close
close-none t fd k h e = rw (h, e) refl

released-Kept :
    (t fd a : ℕ) (k : Fds)
    → Covered t k
    → fd < fd_max
    → k.entries t fd ≡ some a
    → Kept t k (file_release a (set_entry t fd none k))
released-Kept t fd a k c h e = record {
  counts = λ x.
      let r = file_release_count a x (set_entry t fd none k) in
      let n = holders-set_entry t fd x none k h in
      let one = holders-one fd_max x fd (k.entries t) h in
      let z : holds x (k.entries t fd) ≡ holds x (some a) = rw e refl in
      let cx = c x in
      rw (file_release_entries a (set_entry t fd none k)) (omega (arith, r, n, one, z, cx));
  others = λ u ne.
      rw (file_release_entries a (set_entry t fd none k)) (set_entry_others t fd u none k ne);
}

-- On a table whose entries the counts cover, a `fd_table_close` that succeeds lowers the count of the
-- file by the one entry that it empties; the counts of the others and the other tables stay.
pub fd_table_close-Kept :
    (t fd : ℕ) (k k' : Fds) → Covered t k → fd_table_close t fd k ≡ (some 0, k') → Kept t k k'
fd_table_close-Kept t fd k k' c e = elim (Bool-cases (leb fd_max fd)) [
  | inl out ↦ absurd (ground (arith, e, close-out t fd k out))
  | inr inside ↦ by_entry (k.entries t fd) refl inside
]
  where
    by_entry : (o : Option ℕ) → k.entries t fd ≡ o → leb fd_max fd ≡ false → Kept t k k'
    by_entry none o inside = absurd (ground (arith, e, close-none t fd k inside o))
    by_entry (some a) o inside =
        let same : file_release a (set_entry t fd none k) ≡ k' =
          ap (λ r. r.1) (sym (close-some t fd a k inside o) ∙ e) in
        rw (← same) (released-Kept t fd a k c (ground arith) o)
