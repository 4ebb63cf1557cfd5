-- ===== src/Shell/Lines.antt =====
-- Userland/SampleCodeModule/shell/sh.c: a command with its parameter, and two of them with a pipe.
use tp2_kernel.Base.{
  ℕ, zero, suc, ◌-◌, ◌<◌, ◌≤◌, ◌≡◌, refl, Bool, true, false, some, List, [], ◌∷◌, ◌++◌, append-nil,
  subst, arith, ltb, length, take,
}
use tp2_kernel.Shell.{is_space, skip_spaces, trim_end, command_word, parse_command_line, max_buff}
use tp2_kernel.Shell.Tokens.{NoSpace, ends, spaces, skip_spaces-spaces, skip_spaces-word}

pub trim_end-spaces-nil : (k : ℕ) → trim_end is_space (spaces k) ≡ []
unfolding trim_end
trim_end-spaces-nil zero = refl
trim_end-spaces-nil (suc k) = rw (trim_end-spaces-nil k) refl

-- Spaces at the end do not change what is left.
pub trim_end-spaces : (s : List ℕ) (k : ℕ) → trim_end is_space (s ++ spaces k) ≡ trim_end is_space s
unfolding trim_end
trim_end-spaces [] k = trim_end-spaces-nil k
trim_end-spaces (c ∷ s) k = rw (trim_end-spaces s k) refl

command_word_lem :
    (room : ℕ) (w rest : List ℕ)
    → NoSpace w
    → length w ≤ room
    → ends rest ≡ true
    → command_word room (w ++ rest) ≡ (w, rest)
unfolding command_word
command_word_lem room [] [] p h e = refl
command_word_lem room [] (c ∷ rest) p h e = rw e refl
command_word_lem zero (c ∷ w) rest p h e = absurd (omega arith)
command_word_lem (suc room) (c ∷ w) rest p h e =
    let back : suc room - 1 ≡ room = omega arith in
    let more : ltb 0 (suc room) ≡ true = ground arith in
    rw (p.0, back, command_word_lem room w rest p.1 (omega arith) e, more) refl

abbrev pub starts_in_space : List ℕ → Bool
starts_in_space [] = false
starts_in_space (c ∷ s) = is_space c

-- A text with no space at either end.
abbrev pub Trimmed : List ℕ → Type 0
Trimmed s = (starts_in_space s ≡ false) × (trim_end is_space s ≡ s)

take-spaces :
    (n : ℕ) (s : List ℕ) (k : ℕ) → length s ≤ n → (j : ℕ) × (take n (s ++ spaces k) ≡ s ++ spaces j)
take-spaces zero [] k h = (0, refl)
take-spaces (suc n) [] zero h = (0, refl)
take-spaces (suc n) [] (suc k) h =
    let (j, e) = take-spaces n [] k (omega arith) in (suc j, rw e refl)
take-spaces zero (c ∷ s) k h = absurd (omega arith)
take-spaces (suc n) (c ∷ s) k h = let (j, e) = take-spaces n s k (omega arith) in (j, rw e refl)

-- A command, its parameter, and spaces around each of them.
abbrev pub written : ℕ → List ℕ → ℕ → List ℕ → ℕ → List ℕ
written before cmd between param after =
    spaces before ++ (cmd ++ (spaces (suc between) ++ (param ++ spaces after)))

-- A command name of at most MAX_BUFF bytes.
abbrev pub IsCommand : List ℕ → Type 0
IsCommand cmd = (0 < length cmd) × (length cmd ≤ max_buff) × NoSpace cmd

-- A parameter of at most MAX_BUFF bytes, with no space at either end.
abbrev pub IsParam : List ℕ → Type 0
IsParam param = (length param ≤ max_buff) × Trimmed param

skip_spaces-only : (k : ℕ) → skip_spaces (spaces k) ≡ []
unfolding skip_spaces
skip_spaces-only zero = refl
skip_spaces-only (suc k) = skip_spaces-only k

param-kept :
    (param : List ℕ) (after : ℕ)
    → IsParam param
    → trim_end is_space (take max_buff (skip_spaces (param ++ spaces after))) ≡ param
unfolding trim_end
param-kept [] after p = rw (skip_spaces-only after) refl
param-kept (c ∷ param) after p =
    let (j, e) = take-spaces max_buff (c ∷ param) after p.0 in
    rw (skip_spaces-word c (param ++ spaces after) p.1.0, e, trim_end-spaces (c ∷ param) j) p.1.1

-- What follows the command, with its parameter.
parse_command_line-tail :
    (before : ℕ) (cmd tail param : List ℕ)
    → IsCommand cmd
    → ends tail ≡ true
    → trim_end is_space (take max_buff (skip_spaces tail)) ≡ param
    → parse_command_line (spaces before ++ (cmd ++ tail)) ≡ some (cmd, param)
unfolding parse_command_line
parse_command_line-tail before [] tail param c h e = absurd (omega (arith, c.0))
parse_command_line-tail before (x ∷ cmd) tail param c h e =
    let more : ltb 0 (suc (length cmd)) ≡ true = ground arith in
    rw
      (
        skip_spaces-spaces before (x ∷ (cmd ++ tail)),
        skip_spaces-word x (cmd ++ tail) c.2.0,
        command_word_lem max_buff (x ∷ cmd) tail c.2 c.1 h,
        e,
        more,
      )
      refl

-- A command and a parameter are read back from a line, however many spaces stand around them.
pub parse_command_line-written :
    (before between after : ℕ) (cmd param : List ℕ)
    → IsCommand cmd
    → IsParam param
    → parse_command_line (written before cmd between param after) ≡ some (cmd, param)
parse_command_line-written before between after cmd param c p =
    parse_command_line-tail before cmd (spaces (suc between) ++ (param ++ spaces after)) param c
      refl
      (rw (skip_spaces-spaces (suc between) (param ++ spaces after)) (param-kept param after p))

-- The same without the spaces at the end of the line.
abbrev pub tail_of : ℕ → List ℕ → List ℕ
tail_of between [] = []
tail_of between (c ∷ param) = spaces (suc between) ++ (c ∷ param)

pub parse_command_line-tail_of :
    (before between : ℕ) (cmd param : List ℕ)
    → IsCommand cmd
    → IsParam param
    → parse_command_line (spaces before ++ (cmd ++ tail_of between param)) ≡ some (cmd, param)
unfolding skip_spaces trim_end
parse_command_line-tail_of before between cmd [] c p =
    parse_command_line-tail before cmd [] [] c refl refl
parse_command_line-tail_of before between cmd (x ∷ param) c p =
    let kept =
      subst (λ s. trim_end is_space (take max_buff (skip_spaces s)) ≡ x ∷ param)
        (append-nil (x ∷ param)) (param-kept (x ∷ param) 0 p) in
    parse_command_line-tail before cmd (spaces (suc between) ++ (x ∷ param)) (x ∷ param) c refl
      (rw (skip_spaces-spaces (suc between) (x ∷ param)) kept)
