-- ===== src/Shell.antt =====
-- The lines of Userland/SampleCodeModule/shell/sh.c: how a line is cut into commands, parameters and
-- tokens. A C string is the list of its bytes before the terminating 0, and an index into it is what
-- is left of the list.
pub mod Tokens
pub mod Lines
pub mod Pipelines
mod Runs
use tp2_kernel.Base.{
  ℕ, zero, suc, ◌+◌, ◌-◌, Bool, true, false, ◌&&◌, ◌||◌, Option, none, some, List, [], ◌∷◌, ltb,
  leb, ◌==◌, if◌then◌else◌, length, take, get_or, drop,
}

-- MAX_BUFF
abbrev pub max_buff : ℕ
max_buff = 254

-- ' ', '|', '&' and '"'
abbrev pub space : ℕ
space = 32

abbrev pub bar : ℕ
bar = 124

abbrev pub ampersand : ℕ
ampersand = 38

abbrev pub quote : ℕ
quote = 34

abbrev pub is_space : ℕ → Bool
is_space c = c == space

-- The loop that steps over spaces.
pub skip_spaces : List ℕ → List ℕ
skip_spaces [] = []
skip_spaces (c ∷ s) = if is_space c then skip_spaces s else c ∷ s

-- A loop that takes characters off the end.
pub trim_end : (ℕ → Bool) → List ℕ → List ℕ
trim_end blank [] = []
trim_end blank (c ∷ s) = elim (trim_end blank s) [
  | [] ↦ if blank c then [] else c ∷ []
  | d ∷ t ↦ c ∷ d ∷ t
]

-- The second loop of `next_token` with `n` bytes of room: the bytes it copies, and what is left.
pub copy_word : ℕ → List ℕ → List ℕ × List ℕ
copy_word zero s = ([], s)
copy_word (suc n) [] = ([], [])
copy_word (suc n) (c ∷ s) =
    let (w, rest) = copy_word n s in if is_space c then ([], c ∷ s) else (c ∷ w, rest)

-- The token and what is left, `none` for the result 0.
pub next_token : ℕ → List ℕ → Option (List ℕ × List ℕ)
unfolding skip_spaces copy_word
next_token max_len src = elim (skip_spaces src) [
  | [] ↦ none
  | c ∷ s ↦ let (w, rest) = copy_word (max_len - 1) (c ∷ s) in some (w, skip_spaces rest)
]

-- The loop of `parse_command_line` over the command, of which `room` bytes are still stored.
pub command_word : ℕ → List ℕ → List ℕ × List ℕ
command_word room [] = ([], [])
command_word room (c ∷ s) =
    let (w, rest) = command_word (room - 1) s in
    if is_space c then ([], c ∷ s) else ((if ltb 0 room then c ∷ w else w), rest)

-- The command and the parameter, `none` for -1.
pub parse_command_line : List ℕ → Option (List ℕ × List ℕ)
unfolding skip_spaces trim_end command_word
parse_command_line input =
    let (cmd, rest) = command_word max_buff (skip_spaces input) in
    let param = trim_end is_space (take max_buff (skip_spaces rest)) in
    if ltb 0 (length cmd) then some (cmd, param) else none

-- The position of the first '|', `none` for -1.
pub has_pipe : List ℕ → Option ℕ
has_pipe [] = none
has_pipe (c ∷ s) =
    if c == bar then some 0 else elim (has_pipe s) [ none ↦ none | some i ↦ some (i + 1) ]

-- ' ', '\n', '\r' and '\t', which `sanitize_echo_text` takes off the end.
abbrev pub is_blank : ℕ → Bool
is_blank c = c == space || c == 10 || c == 13 || c == 9

-- The text between two quotes that stand around all of it.
pub unquote : List ℕ → List ℕ
unquote s =
    if leb 2 (length s) && get_or s 0 0 == quote && get_or s (length s - 1) 0 == quote
    then take (length s - 2) (drop 1 s)
    else s

-- The text that `echo` prints, for a buffer of `max_len` bytes, which is at least 1.
pub sanitize_echo_text : ℕ → List ℕ → List ℕ
unfolding skip_spaces trim_end unquote
sanitize_echo_text max_len src = take (max_len - 1) (unquote (trim_end is_blank (skip_spaces src)))

-- Whether the last byte is '&'.
abbrev pub ends_in_ampersand : List ℕ → Bool
ends_in_ampersand s = ltb 0 (length s) && get_or s (length s - 1) 0 == ampersand

-- The start of `newLine`: whether the line is run in the background, and the line that is left.
pub strip_background : List ℕ → Bool × List ℕ
unfolding trim_end
strip_background line =
    let effective = trim_end is_space line in
    if ends_in_ampersand effective
    then (true, trim_end is_space (take (length effective - 1) effective))
    else (false, line)

-- What `newLine` does with the line: two complaints, a pipeline, or one command.
pub data Entered : Type 0 where
  invalid_syntax single_only : Entered
  pipeline : List ℕ → List ℕ → Entered
  single : List ℕ → Entered

pub split_line : List ℕ → Entered
unfolding skip_spaces trim_end has_pipe
split_line line = elim (has_pipe line) [
  | none ↦ single line
  | some pos ↦
      let left_cmd = trim_end is_space (take pos line) in
      let right_cmd = trim_end is_space (skip_spaces (drop (pos + 1) line)) in
      if length left_cmd == 0 || length right_cmd == 0
      then invalid_syntax
      else elim (has_pipe right_cmd) [ none ↦ pipeline left_cmd right_cmd | some i ↦ single_only ]
]

pub new_line : List ℕ → Bool × Entered
unfolding strip_background split_line
new_line line = let (background, rest) = strip_background line in (background, split_line rest)

-- The start of `execute_pipe`: the commands and parameters of both sides, `none` if one is invalid.
pub pipe_commands : List ℕ → List ℕ → Option ((List ℕ × List ℕ) × (List ℕ × List ℕ))
unfolding parse_command_line
pipe_commands left_line right_line = elim (parse_command_line left_line) [
  | none ↦ none
  | some l ↦ elim (parse_command_line right_line) [ none ↦ none | some r ↦ some (l, r) ]
]
