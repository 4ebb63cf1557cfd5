-- ===== src/Pipe/Directory/Runs.antt =====
-- Runs of the table of pipe names on names of 2 and of 32 bytes.
use tp2_kernel.Base.{ℕ, zero, suc, ◌≡◌, refl, true, false, none, some, List, [], ◌∷◌, arith}
use tp2_kernel.Names.{IsName}
use tp2_kernel.Pipe.Directory.{Directory, kpipe_open, kpipe_unlink, insert_pipe, new_pipe}
use tp2_kernel.Pipe.Directory.Reopening.{kpipe_open_forgets}

abbrev empty : Directory
empty = record { buckets = λ b. []; at = λ a. new_pipe [] false false }

abbrev short : List ℕ
short = 112 ∷ 49 ∷ []

-- The letter `a` as often as is asked.
abbrev letters : ℕ → List ℕ
letters zero = []
letters (suc n) = 97 ∷ letters n

letters-IsName : (n : ℕ) → IsName (letters n)
letters-IsName zero = tt
letters-IsName (suc n) = (omega arith, letters-IsName n)

kpipe_open_forgets_example :
    let d' = insert_pipe (letters 32) true true 800 empty in
    (kpipe_open (letters 32) true true (some 800) (λ d. d) empty ≡ (some 800, d'))
    × (kpipe_unlink (letters 32) d' ≡ (none, (false, d')))
    × (kpipe_open (letters 32) true true (some 900) (λ d. d) d'
        ≡ (some 900, insert_pipe (letters 32) true true 900 d'))
kpipe_open_forgets_example =
    kpipe_open_forgets (letters 32) true true 800 900 empty (letters-IsName 32) (ground arith) refl
