-- ===== src/Engine/Case.antt =====
-- `strings.ToLower`, `strings.ToUpper` and `strings.EqualFold`, as the code uses them on ASCII words.
use rewriter_go.Prelude.{Bool, [], drop, eqb, false, if◌then◌else◌, leb, ℕ, ◌&&◌, ◌+◌, ◌-◌, ◌∷◌}
use rewriter_go.Prelude.Text.{Bytes, ◌==◌}

unfoldable pub lower : ℕ → ℕ
lower c = if leb b'A' c && leb c b'Z' then c + 32 else c

abbrev pub starts_with_two : ℕ → ℕ → Bytes → Bool
starts_with_two d e (c ∷ b ∷ s) = eqb c d && eqb b e
starts_with_two d e s = false

abbrev pub starts_with_one : ℕ → Bytes → Bool
starts_with_one d (c ∷ s) = eqb c d
starts_with_one d [] = false

-- `strings.ToLower`, as far as it yields ASCII: the dotted I and the Kelvin sign are the only
-- characters outside ASCII whose lower case is in it. Any other character outside ASCII stays
-- outside, and keeps its bytes here, which no name that the code compares with has.
unfoldable pub to_lower : Bytes → Bytes
to_lower [] = []
to_lower (c ∷ s) =
    let rest = to_lower s in
    if eqb c 196 && starts_with_one 176 s
    then b'i' ∷ drop 1 rest
    else if eqb c 226 && starts_with_two 132 170 s
    then b'k' ∷ drop 2 rest
    else lower c ∷ rest

unfoldable pub upper : ℕ → ℕ
upper c = if leb b'a' c && leb c b'z' then c - 32 else c

-- `strings.ToUpper`, as far as it yields ASCII: the dotless i and the long s are the only characters
-- outside ASCII whose upper case is in it. Any other character outside ASCII stays outside, and
-- keeps its bytes here, which no keyword has.
unfoldable pub to_upper : Bytes → Bytes
to_upper [] = []
to_upper (c ∷ s) =
    let rest = to_upper s in
    if eqb c 196 && starts_with_one 177 s
    then b'I' ∷ drop 1 rest
    else if eqb c 197 && starts_with_one 191 s
    then b'S' ∷ drop 1 rest
    else upper c ∷ rest

-- `strings.EqualFold(s, t)` at a text `t` of ASCII: the Kelvin sign folds to k, the long s to s.
unfoldable pub fold_case : Bytes → Bytes
fold_case [] = []
fold_case (c ∷ s) =
    let rest = fold_case s in
    if eqb c 197 && starts_with_one 191 s
    then b's' ∷ drop 1 rest
    else if eqb c 226 && starts_with_two 132 170 s
    then b'k' ∷ drop 2 rest
    else lower c ∷ rest

unfoldable pub equal_fold : Bytes → Bytes → Bool
equal_fold s t = fold_case s == fold_case t
