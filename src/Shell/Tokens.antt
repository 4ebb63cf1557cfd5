-- ===== src/Shell/Tokens.antt =====
-- Userland/SampleCodeModule/shell/sh.c: the words that `next_token` and `parse_command_line` read.
use tp2_kernel.Base.{
  ℕ, zero, suc, ◌-◌, ◌<◌, ◌≤◌, ◌≡◌, ◌∙◌, refl, Bool, true, false, none, some, List, [], ◌∷◌, ◌++◌,
  All, arith, length, replicate, map, Bool-cases, inl, inr,
}
use tp2_kernel.Shell.{space, is_space, skip_spaces, copy_word, next_token}

-- Bytes that are no spaces.
abbrev pub NoSpace : List ℕ → Type 0
NoSpace = All (λ c. is_space c ≡ false)

-- Where a word ends.
abbrev pub ends : List ℕ → Bool
ends [] = true
ends (c ∷ s) = is_space c

abbrev pub spaces : ℕ → List ℕ
spaces n = replicate n space

pub skip_spaces-spaces : (n : ℕ) (s : List ℕ) → skip_spaces (spaces n ++ s) ≡ skip_spaces s
unfolding skip_spaces
skip_spaces-spaces zero s = refl
skip_spaces-spaces (suc n) s = skip_spaces-spaces n s

pub skip_spaces-word : (c : ℕ) (w : List ℕ) → is_space c ≡ false → skip_spaces (c ∷ w) ≡ c ∷ w
unfolding skip_spaces
skip_spaces-word c w h = rw h refl

pub skip_spaces_again : (s : List ℕ) → skip_spaces (skip_spaces s) ≡ skip_spaces s
unfolding skip_spaces
skip_spaces_again [] = refl
skip_spaces_again (c ∷ s) = elim (Bool-cases (is_space c)) [
  | inl e ↦ rw e (skip_spaces_again s)
  | inr e ↦ rw (e, e) refl
]

pub copy_word_lem :
    (n : ℕ) (w rest : List ℕ)
    → NoSpace w
    → length w ≤ n
    → ends rest ≡ true
    → copy_word n (w ++ rest) ≡ (w, rest)
unfolding copy_word
copy_word_lem zero [] rest p h e = refl
copy_word_lem (suc n) [] [] p h e = refl
copy_word_lem (suc n) [] (c ∷ rest) p h e = rw e refl
copy_word_lem zero (c ∷ w) rest p h e = absurd (omega arith)
copy_word_lem (suc n) (c ∷ w) rest p h e = rw (p.0, copy_word_lem n w rest p.1 (omega arith) e) refl

-- A token is read the same with and without spaces in front of it.
next_token-spaces_before :
    (max_len m : ℕ) (s : List ℕ) → next_token max_len (spaces m ++ s) ≡ next_token max_len s
unfolding next_token
next_token-spaces_before max_len m s = rw (skip_spaces-spaces m s, next_token) refl

next_token-word :
    (max_len c : ℕ) (w rest : List ℕ)
    → NoSpace (c ∷ w)
    → length (c ∷ w) < max_len
    → ends rest ≡ true
    → next_token max_len (c ∷ (w ++ rest)) ≡ some (c ∷ w, skip_spaces rest)
unfolding next_token
next_token-word max_len c w rest p h e =
    rw
      (
        skip_spaces-word c (w ++ rest) p.0,
        next_token,
        copy_word_lem (max_len - 1) (c ∷ w) rest p (omega (arith, h)) e,
      )
      refl

next_token_lem :
    (max_len m c : ℕ) (w rest : List ℕ)
    → NoSpace (c ∷ w)
    → length (c ∷ w) < max_len
    → ends rest ≡ true
    → next_token max_len (spaces m ++ (c ∷ (w ++ rest))) ≡ some (c ∷ w, skip_spaces rest)
next_token_lem max_len m c w rest p h e =
    next_token-spaces_before max_len m (c ∷ (w ++ rest)) ∙ next_token-word max_len c w rest p h e

-- A list of words, each behind one space more than its number, with `k` spaces at the end.
pub spread : List (ℕ × List ℕ) → ℕ → List ℕ
spread [] k = spaces k
spread ((n, w) ∷ words) k = spaces (suc n) ++ (w ++ spread words k)

-- What `n` calls of `next_token` read, until one returns 0.
pub read_tokens : ℕ → ℕ → List ℕ → List (List ℕ)
read_tokens zero max_len s = []
read_tokens (suc n) max_len s = elim (next_token max_len s) [
  | none ↦ []
  | some (w, rest) ↦ w ∷ read_tokens n max_len rest
]

-- A word that a buffer of `max_len` bytes holds.
abbrev pub IsWord : ℕ → List ℕ → Type 0
IsWord max_len w = (0 < length w) × (length w < max_len) × NoSpace w

ends-spread : (words : List (ℕ × List ℕ)) (k : ℕ) → ends (spread words k) ≡ true
unfolding spread
ends-spread [] zero = refl
ends-spread [] (suc k) = refl
ends-spread ((n, w) ∷ words) k = refl

-- A token is read the same with and without the spaces in front of it.
next_token-skip_spaces :
    (max_len : ℕ) (s : List ℕ) → next_token max_len (skip_spaces s) ≡ next_token max_len s
unfolding next_token
next_token-skip_spaces max_len s = rw (skip_spaces_again s, next_token) refl

read_tokens-skip_spaces :
    (n max_len : ℕ) (s : List ℕ) → read_tokens n max_len (skip_spaces s) ≡ read_tokens n max_len s
unfolding read_tokens
read_tokens-skip_spaces zero max_len s = refl
read_tokens-skip_spaces (suc n) max_len s = rw (next_token-skip_spaces max_len s, read_tokens) refl

next_token-spaces : (max_len k : ℕ) → next_token max_len (spaces k) ≡ none
unfolding next_token skip_spaces
next_token-spaces max_len zero = refl
next_token-spaces max_len (suc k) = next_token-spaces max_len k

next_token-spread :
    (max_len k g c : ℕ) (w : List ℕ) (words : List (ℕ × List ℕ))
    → NoSpace (c ∷ w)
    → length (c ∷ w) < max_len
    → next_token max_len (spread ((g, c ∷ w) ∷ words) k)
      ≡ some (c ∷ w, skip_spaces (spread words k))
unfolding spread
next_token-spread max_len k g c w words p h =
    next_token_lem max_len (suc g) c w (spread words k) p h (ends-spread words k)

-- However far words that fit into the buffer stand apart, as many calls of `next_token` as there
-- are words, or more, read exactly the words, in order.
pub read_tokens-spread :
    (max_len k n : ℕ) (words : List (ℕ × List ℕ))
    → All (λ v. IsWord max_len v.1) words
    → length words ≤ n
    → read_tokens n max_len (spread words k) ≡ map (λ v. v.1) words
unfolding read_tokens spread
read_tokens-spread max_len k zero [] p h = refl
read_tokens-spread max_len k (suc n) [] p h = rw (next_token-spaces max_len k, read_tokens) refl
read_tokens-spread max_len k zero (v ∷ words) p h = absurd (omega arith)
read_tokens-spread max_len k (suc n) ((g, []) ∷ words) p h = absurd (omega (arith, p.0.0))
read_tokens-spread max_len k (suc n) ((g, c ∷ w) ∷ words) p h =
    rw
      (
        next_token-spread max_len k g c w words p.0.2 p.0.1,
        read_tokens,
        read_tokens-skip_spaces n max_len (spread words k),
        read_tokens-spread max_len k n words p.1 (omega arith),
      )
      refl
