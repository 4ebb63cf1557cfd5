-- ===== src/Names.antt =====
-- The names of pipes and semaphores: the hash, the comparison and the copy that
-- Kernel/ipc/pipe.c and Kernel/ipc/semaphore.c each have a copy of.
-- A C string is the list of its bytes before the terminating 0.
use tp2_kernel.Base.{
  ℕ, zero, suc, ◌+◌, ◌-◌, ◌*◌, ◌%◌, ◌^◌, ◌≤◌, ◌<◌, ◌≡◌, refl, ap, Bool, true, false, List, [], ◌∷◌,
  All, arith, ltb, ◌==◌, if◌then◌else◌, length, take, ap₂, Bool-cases, inl, inr, ◌↔◌, ◌⊎◌,
}

-- `(uint32_t)c` of a signed `char`.
abbrev pub char_to_u32 : ℕ → ℕ
char_to_u32 c = if ltb c 128 then c else c + 2 ^ 32 - 256

-- The loop of the hash: `hash = ((hash << 5) + hash) + (uint32_t)c` on 32 bits.
pub hash_from : ℕ → List ℕ → ℕ
hash_from hash [] = hash
hash_from hash (c ∷ name) = hash_from ((hash * 32 % 2 ^ 32 + hash + char_to_u32 c) % 2 ^ 32) name

pub sem_hash : List ℕ → ℕ
unfolding hash_from
sem_hash name = hash_from 5381 name % 32

pub pipe_hash : List ℕ → ℕ
unfolding hash_from
pipe_hash name = hash_from 5381 name % 16

-- The two bytes whose difference the comparison returns: the first that differ, or those at the
-- end of the shorter string, where 0 is the terminator.
pub name_cmp : List ℕ → List ℕ → ℕ × ℕ
name_cmp [] [] = (0, 0)
name_cmp [] (y ∷ b) = (0, y)
name_cmp (x ∷ a) [] = (x, 0)
name_cmp (x ∷ a) (y ∷ b) = let rest = name_cmp a b in if x == y then rest else (x, y)

-- `name_cmp(a, b) == 0`
pub same_name : List ℕ → List ℕ → Bool
unfolding name_cmp
same_name a b = (name_cmp a b).0 == (name_cmp a b).1

-- KSEM_NAME_MAX and PIPE_NAME_MAX
abbrev pub name_max : ℕ
name_max = 32

-- The copy stops after 31 bytes.
pub name_copy : List ℕ → List ℕ
name_copy name = take (name_max - 1) name

-- `sem_name_len`: the length, cut off at 32.
pub len_from : ℕ → List ℕ → ℕ
len_from zero name = 0
len_from (suc n) [] = 0
len_from (suc n) (c ∷ name) = suc (len_from n name)

pub sem_name_len : List ℕ → ℕ
unfolding len_from
sem_name_len name = len_from name_max name

-- The bytes of a C string are not 0.
abbrev pub IsName : List ℕ → Type 0
IsName = All (λ c. 0 < c)

-- Two strings compare as equal exactly if they are equal.
pub same_name_iff : (a b : List ℕ) → IsName a → IsName b → (same_name a b ≡ true) ↔ (a ≡ b)
unfolding same_name name_cmp
same_name_iff [] [] p q = (λ h. refl, λ h. refl)
same_name_iff [] (y ∷ b) p q = (λ h. absurd (ground arith), λ h. absurd (ground arith))
same_name_iff (x ∷ a) [] p q = (λ h. absurd (ground arith), λ h. absurd (ground arith))
same_name_iff (x ∷ a) (y ∷ b) p q =
    let ih = same_name_iff a b p.1 q.1 in
    (
      (λ h. elim (Bool-cases (x == y)) [
        | inl e ↦ let same : x ≡ y = ground arith in ap₂ ◌∷◌ same (ih.0 (rw e at h))
        | inr e ↦ absurd (ground arith)
      ]),
      λ h.
          let same : x ≡ y = ground (arith, h) in
          let tail : a ≡ b = ground (arith, h) in
          let e : (x == y) ≡ true = ground arith in rw e (ih.1 tail),
    )

pub length-name_copy : (name : List ℕ) → length (name_copy name) ≤ 31
unfolding name_copy
length-name_copy name = length-take-le 31 name
  where
    length-take-le : (n : ℕ) (xs : List ℕ) → length (take n xs) ≤ n
    length-take-le zero xs = omega arith
    length-take-le (suc n) [] = omega arith
    length-take-le (suc n) (x ∷ xs) = omega (arith, length-take-le n xs)

pub name_copy-short : (name : List ℕ) → length name ≤ 31 → name_copy name ≡ name
unfolding name_copy
name_copy-short name h = take-all 31 name h
  where
    take-all : (n : ℕ) (xs : List ℕ) → length xs ≤ n → take n xs ≡ xs
    take-all zero [] h = refl
    take-all zero (x ∷ xs) h = absurd (omega arith)
    take-all (suc n) [] h = refl
    take-all (suc n) (x ∷ xs) h = ap (◌∷◌ x) (take-all n xs (omega arith))

-- The length of a name that fits is counted in full.
pub sem_name_len-short : (name : List ℕ) → length name ≤ 32 → sem_name_len name ≡ length name
unfolding sem_name_len len_from
sem_name_len-short name h = len_all 32 name h
  where
    len_all : (n : ℕ) (xs : List ℕ) → length xs ≤ n → len_from n xs ≡ length xs
    len_all zero [] h = refl
    len_all zero (x ∷ xs) h = absurd (omega arith)
    len_all (suc n) [] h = refl
    len_all (suc n) (x ∷ xs) h = ap suc (len_all n xs (omega arith))

-- A copied name is one that has no 0 byte either.
pub name_copy-IsName : (name : List ℕ) → IsName name → IsName (name_copy name)
unfolding name_copy
name_copy-IsName name v = take-IsName 31 name v
  where
    take-IsName : (n : ℕ) (xs : List ℕ) → IsName xs → IsName (take n xs)
    take-IsName zero xs v = tt
    take-IsName (suc n) [] v = tt
    take-IsName (suc n) (x ∷ xs) v = (v.0, take-IsName n xs v.1)

-- The copy of a name is the name again exactly if it was not cut off.
pub same_name-name_copy :
    (name : List ℕ) → IsName name → same_name (name_copy name) name ≡ ltb (length name) 32
same_name-name_copy name v = elim (Bool-cases (ltb (length name) 32)) [
  | inl e ↦ rw e (rw (name_copy-short name (ground arith)) ((same_name_iff name name v v).1 refl))
  | inr e ↦ rw e (differs (Bool-cases (same_name (name_copy name) name)) e)
]
  where
    differs :
        (same_name (name_copy name) name ≡ true) ⊎ (same_name (name_copy name) name ≡ false)
        → ltb (length name) 32 ≡ false
        → same_name (name_copy name) name ≡ false
    differs (inr f) e = f
    differs (inl f) e =
        let same = (same_name_iff (name_copy name) name (name_copy-IsName name v) v).0 f in
        let short = length-name_copy name in
        let len : length (name_copy name) ≡ length name = ap length same in
        absurd (ground (arith, short, len))
