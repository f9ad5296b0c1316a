-- ===== src/Grader/Text.antt =====
-- `strings.TrimSpace` and `strings.ToLower`, the latter as far as a unit's name shows it: the letters
-- whose lower case is in ASCII or a Greek mu.
use Prim.Native.Char.{Char, code}
use Prim.Native.String.{String, [], ◌∷◌, ◌++◌}
use storage_cert_harness.Common.{ℕ, zero, suc, ◌-◌, Bool, ◌&&◌, ◌||◌, leb, eqb, if◌then◌else◌}

is_space : ℕ → Bool
is_space n =
    (leb 9 n && leb n 13)
    || (eqb n 32
        || (eqb n 0x85
            || (eqb n 0xA0
                || (eqb n 0x1680
                    || ((leb 0x2000 n && leb n 0x200A)
                        || (eqb n 0x2028
                            || (eqb n 0x2029
                                || (eqb n 0x202F || (eqb n 0x205F || eqb n 0x3000)))))))))

trim_left : String → String
trim_left [] = []
trim_left (c ∷ s) = let rest = trim_left s in if is_space (code c) then rest else c ∷ s

abbrev nonblank : Char → String → String
nonblank c [] = if is_space (code c) then [] else c ∷ []
nonblank c (d ∷ s) = c ∷ d ∷ s

trim_right : String → String
trim_right [] = []
trim_right (c ∷ s) = nonblank c (trim_right s)

unfoldable pub trim_space : String → String
unfolding is_space trim_left trim_right
trim_space s = trim_right (trim_left s)

-- The alphabet from which the letter at a distance is taken.
letter_at : ℕ → String → Char → String
letter_at n [] c = c ∷ []
letter_at zero (d ∷ ds) c = d ∷ []
letter_at (suc n) (d ∷ ds) c = letter_at n ds c

lower : Char → String
unfolding letter_at
lower c =
    let n = code c in
    if leb b'A' n && leb n b'Z'
    then letter_at (n - b'A') "abcdefghijklmnopqrstuvwxyz" c
    else if eqb n 0x212A
    then "k"
    else if eqb n 0x130
    then "i"
    else if eqb n 0x39C
    then "μ"
    else c ∷ []

unfoldable pub to_lower : String → String
unfolding lower
to_lower [] = []
to_lower (c ∷ s) = lower c ++ to_lower s
