-- ===== src/Shell/Runs.antt =====
-- Lines of the shell, as bytes.
use tp2_kernel.Base.{ℕ, ◌≡◌, refl, false, some, List, [], ◌∷◌, ◌++◌, arith}
use tp2_kernel.Shell.{
  bar, next_token, new_line, pipeline, invalid_syntax, single_only, pipe_commands,
  sanitize_echo_text, trim_end,
}
use tp2_kernel.Shell.Tokens.{spread, read_tokens, read_tokens-spread}
use tp2_kernel.Shell.Pipelines.{two_commands, pipeline_round_trip}

-- "cat" and "wc", and the parameter "a b".
abbrev cat : List ℕ
cat = 99 ∷ 97 ∷ 116 ∷ []

abbrev wc : List ℕ
wc = 119 ∷ 99 ∷ []

abbrev a_b : List ℕ
a_b = 97 ∷ 32 ∷ 98 ∷ []

-- A line that starts with '|', and one with two.
no_left : new_line (bar ∷ wc) ≡ (false, invalid_syntax)
unfolding new_line
no_left = refl

two_bars : new_line (cat ++ (bar ∷ (wc ++ (bar ∷ wc)))) ≡ (false, single_only)
unfolding new_line
two_bars = refl

-- `echo "a b" ` without its quotes, cut to a buffer of 3 bytes.
echo_quoted : sanitize_echo_text 255 (32 ∷ 34 ∷ (a_b ++ (34 ∷ 10 ∷ []))) ≡ a_b
unfolding sanitize_echo_text
echo_quoted = refl

echo_cut : sanitize_echo_text 3 a_b ≡ 97 ∷ 32 ∷ []
unfolding sanitize_echo_text
echo_cut = refl

-- A token that is longer than the buffer is cut in two.
token_cut : next_token 3 cat ≡ some (99 ∷ 97 ∷ [], 116 ∷ [])
unfolding next_token
token_cut = refl

pipeline_round_trip_example :
    (l r : List ℕ) × (new_line (two_commands 1 0 2 0 3 1 cat a_b wc []) ≡ (false, pipeline l r))
    × (pipe_commands l r ≡ some ((cat, a_b), (wc, [])))
unfolding trim_end
pipeline_round_trip_example =
    pipeline_round_trip 1 0 2 0 3 1 cat a_b wc []
      (omega arith, omega arith, (refl, (refl, (refl, tt)))) (omega arith, (refl, refl))
      ((refl, (refl, (refl, tt))), (refl, (refl, (refl, tt))))
      (omega arith, omega arith, (refl, (refl, tt))) (omega arith, (refl, refl))
      ((refl, (refl, tt)), tt) refl

read_tokens-spread_example : read_tokens 3 16 (spread ((1, cat) ∷ (0, wc) ∷ []) 2) ≡ cat ∷ wc ∷ []
read_tokens-spread_example =
    read_tokens-spread 16 2 3 ((1, cat) ∷ (0, wc) ∷ [])
      (
        (omega arith, omega arith, (refl, (refl, (refl, tt)))),
        ((omega arith, omega arith, (refl, (refl, tt))), tt),
      )
      (omega arith)
