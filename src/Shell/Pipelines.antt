-- ===== src/Shell/Pipelines.antt =====
-- Userland/SampleCodeModule/shell/sh.c: a line with two commands and a pipe, from `newLine` to the start
-- of `execute_pipe`.
use tp2_kernel.Base.{
  ℕ, zero, suc, ◌+◌, ◌<◌, ◌≡◌, ◌∙◌, refl, ap, ap₂, ltb, true, get_or, ◌-◌, sym, false, none, some,
  List, [], ◌∷◌, ◌++◌, length-append, All, arith, length, take, drop, append-nil, ◌==◌, All-append,
}
use tp2_kernel.Shell.{
  is_space, skip_spaces, trim_end, bar, has_pipe, split_line, strip_background, new_line,
  ends_in_ampersand, pipeline, pipe_commands,
}
use tp2_kernel.Shell.Tokens.{NoSpace, spaces, skip_spaces-spaces, skip_spaces-word}
use tp2_kernel.Shell.Lines.{
  written, tail_of, IsCommand, IsParam, trim_end-spaces, trim_end-spaces-nil,
  parse_command_line-tail_of,
}

-- Bytes that are no '|'.
abbrev pub NoBar : List ℕ → Type 0
NoBar = All (λ c. (c == bar) ≡ false)

has_pipe-none : (s : List ℕ) → NoBar s → has_pipe s ≡ none
unfolding has_pipe
has_pipe-none [] p = refl
has_pipe-none (c ∷ s) p = rw (p.0, has_pipe-none s p.1) refl

spaces-NoBar : (n : ℕ) → NoBar (spaces n)
spaces-NoBar zero = tt
spaces-NoBar (suc n) = (refl, spaces-NoBar n)

has_pipe-first : (l r : List ℕ) → NoBar l → has_pipe (l ++ (bar ∷ r)) ≡ some (length l)
unfolding has_pipe
has_pipe-first [] r p = refl
has_pipe-first (c ∷ l) r p =
    let up : length l + 1 ≡ suc (length l) = omega arith in
    rw (p.0, has_pipe-first l r p.1, up) refl

take-front : (l r : List ℕ) → take (length l) (l ++ r) ≡ l
take-front [] r = refl
take-front (c ∷ l) r = ap (λ s. c ∷ s) (take-front l r)

drop-front : (l r : List ℕ) (c : ℕ) → drop (suc (length l)) (l ++ (c ∷ r)) ≡ r
drop-front [] r c = refl
drop-front (d ∷ l) r c = drop-front l r c

trim_end-onto :
    (x : ℕ) (s t : List ℕ)
    → 0 < length t
    → trim_end is_space s ≡ t
    → trim_end is_space (x ∷ s) ≡ x ∷ t
unfolding trim_end
trim_end-onto x s [] h e = absurd (omega arith)
trim_end-onto x s (c ∷ t) h e = rw e refl

-- What stands in front of a text that is not all spaces stays.
trim_end-append :
    (u s t : List ℕ) → 0 < length t → trim_end is_space s ≡ t → trim_end is_space (u ++ s) ≡ u ++ t
trim_end-append [] s t h e = e
trim_end-append (x ∷ u) s t h e =
    trim_end-onto x (u ++ s) (u ++ t) (omega (arith, length-append u t)) (trim_end-append u s t h e)

-- Spaces behind a text do not count.
trim_end-blank :
    (u s : List ℕ) → trim_end is_space s ≡ [] → trim_end is_space (u ++ s) ≡ trim_end is_space u
unfolding trim_end
trim_end-blank [] s e = e
trim_end-blank (x ∷ u) s e = rw (trim_end-blank u s e) refl

trim_end-word : (w : List ℕ) → NoSpace w → trim_end is_space w ≡ w
unfolding trim_end
trim_end-word [] p = refl
trim_end-word (c ∷ []) p = rw p.0 refl
trim_end-word (c ∷ (d ∷ w)) p =
    trim_end-onto c (d ∷ w) (d ∷ w) (omega arith) (trim_end-word (d ∷ w) p.1)

trim_end-written :
    (before between after : ℕ) (cmd param : List ℕ)
    → IsCommand cmd
    → IsParam param
    → trim_end is_space (written before cmd between param after)
      ≡ spaces before ++ (cmd ++ tail_of between param)
trim_end-written before between after cmd [] c p =
    let blank =
      trim_end-blank (spaces (suc between)) (spaces after) (trim_end-spaces-nil after)
      ∙ trim_end-spaces-nil (suc between) in
    trim_end-append (spaces before) (cmd ++ (spaces (suc between) ++ spaces after)) (cmd ++ [])
      (omega (arith, length-append cmd [], c.0))
      (trim_end-blank cmd (spaces (suc between) ++ spaces after) blank
        ∙ trim_end-word cmd c.2
        ∙ sym (append-nil cmd))
trim_end-written before between after cmd (x ∷ param) c p =
    let gap = spaces (suc between) in
    let body = trim_end-spaces (x ∷ param) after ∙ p.1.1 in
    let spaced = trim_end-append gap ((x ∷ param) ++ spaces after) (x ∷ param) (omega arith) body in
    let all =
      trim_end-append cmd (gap ++ ((x ∷ param) ++ spaces after)) (gap ++ (x ∷ param))
        (omega (arith, length-append gap (x ∷ param))) spaced in
    trim_end-append (spaces before) (cmd ++ (gap ++ ((x ∷ param) ++ spaces after)))
      (cmd ++ (gap ++ (x ∷ param))) (omega (arith, length-append cmd (gap ++ (x ∷ param)), c.0)) all

skip_spaces-written :
    (before between after : ℕ) (cmd param : List ℕ)
    → IsCommand cmd
    → skip_spaces (written before cmd between param after) ≡ written 0 cmd between param after
skip_spaces-written before between after [] param c = absurd (omega (arith, c.0))
skip_spaces-written before between after (x ∷ cmd) param c =
    let rest = cmd ++ (spaces (suc between) ++ (param ++ spaces after)) in
    skip_spaces-spaces before (x ∷ rest) ∙ skip_spaces-word x rest c.2.0

trimmed-NoBar :
    (between : ℕ) (cmd param : List ℕ)
    → NoBar cmd
    → NoBar param
    → NoBar (cmd ++ tail_of between param)
trimmed-NoBar between cmd [] c p = All-append (λ c. (c == bar) ≡ false) cmd [] c p
trimmed-NoBar between cmd (x ∷ param) c p =
    All-append (λ c. (c == bar) ≡ false) cmd (spaces (suc between) ++ (x ∷ param)) c
      (All-append (λ c. (c == bar) ≡ false) (spaces (suc between)) (x ∷ param)
        (spaces-NoBar (suc between)) p)

written-NoBar :
    (before between after : ℕ) (cmd param : List ℕ)
    → NoBar cmd
    → NoBar param
    → NoBar (written before cmd between param after)
written-NoBar before between after cmd param c p =
    let plus = All-append (λ c. (c == bar) ≡ false) in
    plus (spaces before) (cmd ++ (spaces (suc between) ++ (param ++ spaces after)))
      (spaces-NoBar before)
      (plus cmd (spaces (suc between) ++ (param ++ spaces after)) c (
        plus (spaces (suc between)) (param ++ spaces after) (spaces-NoBar (suc between))
          (plus param (spaces after) p (spaces-NoBar after))))

-- Where a line is cut at its only '|'.
split_line-cut :
    (l r l' r' : List ℕ)
    → NoBar l
    → NoBar r'
    → trim_end is_space l ≡ l'
    → trim_end is_space (skip_spaces r) ≡ r'
    → 0 < length l'
    → 0 < length r'
    → split_line (l ++ (bar ∷ r)) ≡ pipeline l' r'
unfolding split_line
split_line-cut l r l' r' pl pr el er nl nr =
    let next : length l + 1 ≡ suc (length l) = omega arith in
    let left : trim_end is_space (take (length l) (l ++ (bar ∷ r))) ≡ l' =
      rw (take-front l (bar ∷ r)) el in
    let right : trim_end is_space (skip_spaces (drop (length l + 1) (l ++ (bar ∷ r)))) ≡ r' =
      rw (next, drop-front l r bar) er in
    let full : (length l' == 0) ≡ false = ground arith in
    let full' : (length r' == 0) ≡ false = ground arith in
    rw (has_pipe-first l r pl, split_line, left, right, full, full', has_pipe-none r' pr)
      (ap₂ pipeline left right)

-- A line with a '|' between two commands.
abbrev pub two_commands : (b₁ g₁ a₁ b₂ g₂ a₂ : ℕ) → (c₁ p₁ c₂ p₂ : List ℕ) → List ℕ
two_commands b₁ g₁ a₁ b₂ g₂ a₂ c₁ p₁ c₂ p₂ =
    written b₁ c₁ g₁ p₁ a₁ ++ (bar ∷ written b₂ c₂ g₂ p₂ a₂)

strip_background-plain :
    (line : List ℕ)
    → ends_in_ampersand (trim_end is_space line) ≡ false
    → strip_background line ≡ (false, line)
unfolding strip_background
strip_background-plain line e = rw (e, strip_background) refl

get_or-append : (u s : List ℕ) (i : ℕ) → get_or (u ++ s) (length u + i) 0 ≡ get_or s i 0
get_or-append [] s i = ap (λ j. get_or s j 0) (omega arith)
get_or-append (c ∷ u) s i =
    let up : length (c ∷ u) + i ≡ suc (length u + i) = omega arith in rw up (get_or-append u s i)

-- Whether a text ends in '&' is seen in any last part of it.
ends_in_ampersand-append :
    (u s : List ℕ) → 0 < length s → ends_in_ampersand (u ++ s) ≡ ends_in_ampersand s
ends_in_ampersand-append u s h =
    let long : length (u ++ s) ≡ length u + length s = length-append u s in
    let last : length u + length s - 1 ≡ length u + (length s - 1) = omega (arith, h) in
    let some : ltb 0 (length u + length s) ≡ true = ground (arith, h) in
    let some' : ltb 0 (length s) ≡ true = ground (arith, h) in
    rw (long, last, some, some', get_or-append u s (length s - 1)) refl

-- A line of two commands with the spaces at its end taken off.
trimmed_line :
    (b₁ g₁ a₁ b₂ g₂ a₂ : ℕ) (c₁ p₁ c₂ p₂ : List ℕ)
    → IsCommand c₂
    → IsParam p₂
    → trim_end is_space (two_commands b₁ g₁ a₁ b₂ g₂ a₂ c₁ p₁ c₂ p₂)
      ≡ written b₁ c₁ g₁ p₁ a₁ ++ (bar ∷ (spaces b₂ ++ (c₂ ++ tail_of g₂ p₂)))
trimmed_line b₁ g₁ a₁ b₂ g₂ a₂ c₁ p₁ c₂ p₂ hc₂ hp₂ =
    let r = c₂ ++ tail_of g₂ p₂ in
    trim_end-append (written b₁ c₁ g₁ p₁ a₁) (bar ∷ written b₂ c₂ g₂ p₂ a₂) (bar ∷ (spaces b₂ ++ r))
      (omega arith)
      (trim_end-onto bar (written b₂ c₂ g₂ p₂ a₂) (spaces b₂ ++ r)
        (omega (arith, length-append (spaces b₂) r, length-append c₂ (tail_of g₂ p₂), hc₂.0))
        (trim_end-written b₂ g₂ a₂ c₂ p₂ hc₂ hp₂))

-- The line is split at its '|', whatever is left of the spaces behind it.
split_line-two :
    (b₁ g₁ a₁ g₂ : ℕ) (c₁ p₁ c₂ p₂ after : List ℕ)
    → IsCommand c₁
    → IsParam p₁
    → NoBar c₁ × NoBar p₁
    → IsCommand c₂
    → NoBar c₂ × NoBar p₂
    → trim_end is_space (skip_spaces after) ≡ c₂ ++ tail_of g₂ p₂
    → split_line (written b₁ c₁ g₁ p₁ a₁ ++ (bar ∷ after))
      ≡ pipeline (spaces b₁ ++ (c₁ ++ tail_of g₁ p₁)) (c₂ ++ tail_of g₂ p₂)
split_line-two b₁ g₁ a₁ g₂ c₁ p₁ c₂ p₂ after hc₁ hp₁ n₁ hc₂ n₂ e =
    let l = c₁ ++ tail_of g₁ p₁ in
    split_line-cut (written b₁ c₁ g₁ p₁ a₁) after (spaces b₁ ++ l) (c₂ ++ tail_of g₂ p₂)
      (written-NoBar b₁ g₁ a₁ c₁ p₁ n₁.0 n₁.1) (trimmed-NoBar g₂ c₂ p₂ n₂.0 n₂.1)
      (trim_end-written b₁ g₁ a₁ c₁ p₁ hc₁ hp₁) e
      (omega (arith, length-append (spaces b₁) l, length-append c₁ (tail_of g₁ p₁), hc₁.0))
      (omega (arith, length-append c₂ (tail_of g₂ p₂), hc₂.0))

pipe_commands-two :
    (b₁ g₁ g₂ : ℕ) (c₁ p₁ c₂ p₂ : List ℕ)
    → IsCommand c₁
    → IsParam p₁
    → IsCommand c₂
    → IsParam p₂
    → pipe_commands (spaces b₁ ++ (c₁ ++ tail_of g₁ p₁)) (c₂ ++ tail_of g₂ p₂)
      ≡ some ((c₁, p₁), (c₂, p₂))
unfolding pipe_commands
pipe_commands-two b₁ g₁ g₂ c₁ p₁ c₂ p₂ hc₁ hp₁ hc₂ hp₂ =
    rw
      (
        parse_command_line-tail_of b₁ g₁ c₁ p₁ hc₁ hp₁,
        pipe_commands,
        parse_command_line-tail_of 0 g₂ c₂ p₂ hc₂ hp₂,
      )
      refl

-- Two commands with their parameters, none with a '|', and not ending in '&', are read back from a line
-- that has a '|' between them, however many spaces stand around each: `newLine` runs it in the
-- foreground, splits it there, and the commands that `execute_pipe` runs are those two.
pub pipeline_round_trip :
    (b₁ g₁ a₁ b₂ g₂ a₂ : ℕ) (c₁ p₁ c₂ p₂ : List ℕ)
    → IsCommand c₁
    → IsParam p₁
    → NoBar c₁ × NoBar p₁
    → IsCommand c₂
    → IsParam p₂
    → NoBar c₂ × NoBar p₂
    → ends_in_ampersand (c₂ ++ tail_of g₂ p₂) ≡ false
    → (l r : List ℕ) × (new_line (two_commands b₁ g₁ a₁ b₂ g₂ a₂ c₁ p₁ c₂ p₂)
        ≡ (false, pipeline l r))
      × (pipe_commands l r ≡ some ((c₁, p₁), (c₂, p₂)))
unfolding new_line
pipeline_round_trip b₁ g₁ a₁ b₂ g₂ a₂ c₁ p₁ c₂ p₂ hc₁ hp₁ n₁ hc₂ hp₂ n₂ front =
    let line = two_commands b₁ g₁ a₁ b₂ g₂ a₂ c₁ p₁ c₂ p₂ in
    let w₁ = written b₁ c₁ g₁ p₁ a₁ in
    let r = c₂ ++ tail_of g₂ p₂ in
    let some_r : 0 < length r = omega (arith, length-append c₂ (tail_of g₂ p₂), hc₂.0) in
    let seen : ends_in_ampersand (trim_end is_space line) ≡ false =
      ap ends_in_ampersand (trimmed_line b₁ g₁ a₁ b₂ g₂ a₂ c₁ p₁ c₂ p₂ hc₂ hp₂)
      ∙ ends_in_ampersand-append w₁ (bar ∷ (spaces b₂ ++ r)) (omega arith)
      ∙ ends_in_ampersand-append (bar ∷ spaces b₂) r some_r
      ∙ front in
    let behind =
      ap (trim_end is_space) (skip_spaces-written b₂ g₂ a₂ c₂ p₂ hc₂)
      ∙ trim_end-written 0 g₂ a₂ c₂ p₂ hc₂ hp₂ in
    (
      spaces b₁ ++ (c₁ ++ tail_of g₁ p₁),
      r,
      rw (strip_background-plain line seen) (
          ap (λ e. (false, e))
            (split_line-two b₁ g₁ a₁ g₂ c₁ p₁ c₂ p₂ (written b₂ c₂ g₂ p₂ a₂) hc₁ hp₁ n₁ hc₂ n₂
              behind)),
      pipe_commands-two b₁ g₁ g₂ c₁ p₁ c₂ p₂ hc₁ hp₁ hc₂ hp₂,
    )
