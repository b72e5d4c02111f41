-- ===== src/Engine/Guard.antt =====
-- guard.go of internal/engine: the bound on the nesting of brackets that the parser is given.
pub mod Code
pub mod Bounded
use rewriter_go.Prelude.{
  Bool, [], eqb, false, if◌then◌else◌, ltb, not, suc, true, ℕ, ◌&&◌, ◌-◌, ◌||◌, ◌∷◌,
}
use rewriter_go.Engine.Case.{starts_with_one}
use rewriter_go.Prelude.Text.{Bytes}

-- Where the scan stands: in code, in a literal that this byte ends, or in one whose next byte is
-- passed over.
pub data ScanMode : Type 0 where
  in_code : ScanMode
  in_quote skipping : ℕ → ScanMode

abbrev pub is_quote : ℕ → Bool
is_quote c = eqb c 39 || (eqb c 34 || eqb c 96)

abbrev pub opens_bracket : ℕ → Bool
opens_bracket c = eqb c 40 || eqb c 91

abbrev pub closes_bracket : ℕ → Bool
closes_bracket c = eqb c 41 || eqb c 93

abbrev pub at_end : Bytes → Bool
at_end [] = true
at_end (_ ∷ _) = false

-- In a literal ended by `q`, at a byte and those behind it.
unfoldable pub quote_mode : ℕ → ℕ → Bytes → ScanMode
quote_mode q c s =
    if eqb c 92 && not (at_end s)
    then skipping q
    else if eqb c q
    then (if starts_with_one q s then skipping q else in_code)
    else in_quote q

abbrev pub code_mode : ℕ → ScanMode
code_mode c = if is_quote c then in_quote c else in_code

abbrev pub code_depth : ℕ → ℕ → ℕ
code_depth c d = if opens_bracket c then suc d else if closes_bracket c then d - 1 else d

unfoldable pub exceeds_from : ℕ → ScanMode → ℕ → Bytes → Bool
exceeds_from max m d [] = false
exceeds_from max (skipping q) d (c ∷ s) = exceeds_from max (in_quote q) d s
exceeds_from max (in_quote q) d (c ∷ s) = exceeds_from max (quote_mode q c s) d s
exceeds_from max in_code d (c ∷ s) =
    let rest = exceeds_from max (code_mode c) (code_depth c d) s in
    if opens_bracket c && ltb max (suc d) then true else rest

unfoldable pub exceeds_nesting_depth : Bytes → ℕ → Bool
exceeds_nesting_depth sql max = exceeds_from max in_code 0 sql

abbrev pub max_parse_depth : ℕ
max_parse_depth = 100
