-- ===== src/Engine/Settings/Scans/Refused.antt =====
-- The assignments that the backstop refuses.
use rewriter_go.Prelude.{
  Bool, List, [], any_congr, arith, false, if◌then◌else◌, inl, inr, not, refl, sym, true, ◌&&◌,
  ◌||◌, ◌↔◌, ◌∙◌, ◌∷◌, ◌≡◌, ◌≢◌, ◌⊎◌,
}
use rewriter_go.Engine.Case.{equal_fold, fold_case, to_lower, to_upper, lower}
use rewriter_go.Engine.Settings.{
  analyzer_setting, analyzer_settings, sql_bearing_setting, sql_bearing_settings,
  true_literal_spelling,
}
use rewriter_go.Engine.Settings.Assignments.{true_literal_tokens}
use rewriter_go.Engine.Settings.Scans.{
  analyzer_kept, is_settings_keyword, refused_at, setting_value_ends,
}
use rewriter_go.Engine.Tokens.{RawToken, any_of, has_type, opaque_keyword}
use rewriter_go.Prelude.Text.{Bytes, codes, contains, eq_comm, eq_iff, has_suffix, ◌==◌}

-- The keyword that opens a list of settings: the word in any case, neither a string nor a quoted name.
abbrev pub IsSettingsKeyword : RawToken → Type 0
IsSettingsKeyword tok =
    (tok.token_type ≢ codes "STRING")
    × ((tok.token_type ≢ codes "QUOTED_IDENTIFIER") × (fold_case tok.text ≡ codes "settings"))

-- A setting that carries SQL, or picks another dialect of it.
abbrev pub IsSqlBearing : Bytes → Type 0
IsSqlBearing name =
    (contains (to_lower name) sql_bearing_settings ≡ true)
    ⊎ (has_suffix (to_lower name) (codes "_dialect") ≡ true)

abbrev pub IsAnalyzerSwitch : Bytes → Type 0
IsAnalyzerSwitch name =
    contains (to_lower name) (codes "enable_analyzer" ∷ codes "allow_experimental_analyzer" ∷ [])
    ≡ true

-- 1 or true, bare or in quotes.
abbrev pub IsTrueLiteral : RawToken → Type 0
IsTrueLiteral tok =
    (contains tok.token_type (codes "NUMBER" ∷ codes "TRUE" ∷ codes "STRING" ∷ []) ≡ true)
    × (contains (to_lower tok.source) (codes "1" ∷ codes "true" ∷ codes "'1'" ∷ codes "'true'" ∷ [])
        ≡ true)

-- What may stand behind a value that ends there.
abbrev pub IsEnd : List RawToken → Type 0
IsEnd [] = Unit
IsEnd (tok ∷ toks) =
    (contains tok.token_type (codes "COMMA" ∷ codes "SEMICOLON" ∷ codes "R_PAREN" ∷ []) ≡ true)
    ⊎ ((tok.token_type ≢ codes "STRING")
        × ((tok.token_type ≢ codes "QUOTED_IDENTIFIER")
            × (contains (to_upper tok.text) (
                  codes "FORMAT"
                  ∷ codes "UNION"
                  ∷ codes "EXCEPT"
                  ∷ codes "INTERSECT"
                  ∷ codes "INTO"
                  ∷ codes "SELECT"
                  ∷ codes "WITH"
                  ∷ codes "VALUES"
                  ∷ codes "SETTINGS"
                  ∷ [])
                ≡ true)))

-- The tokens of a value that is one true literal.
abbrev pub IsKept : List RawToken → Type 0
IsKept [] = ⊥
IsKept (value ∷ toks) = IsTrueLiteral value × IsEnd toks

-- An assignment to a refused setting, given its name and the tokens behind the name.
abbrev pub IsRefused : RawToken → List RawToken → Type 0
IsRefused tok [] = ⊥
IsRefused tok (eq ∷ value) =
    (eq.token_type ≡ codes "EQ")
    × ((tok.token_type ≢ codes "STRING")
        × (IsSqlBearing tok.text ⊎ (IsAnalyzerSwitch tok.text × ¬ IsKept value)))

or_iff : {A B : Type 0} (a b : Bool) → (a ≡ true) ↔ A → (b ≡ true) ↔ B → (a || b ≡ true) ↔ (A ⊎ B)
or_iff true b f g = (λ h. inl (f.0 refl), λ h. refl)
or_iff false b f g =
    (λ h. inr (g.0 h), λ h. elim h [ inl p ↦ absurd (ground (arith, f.1 p)) | inr q ↦ g.1 q ])

and_iff : {A B : Type 0} (a b : Bool) → (a ≡ true) ↔ A → (b ≡ true) ↔ B → (a && b ≡ true) ↔ (A × B)
and_iff true b f g = (λ h. (f.0 refl, g.0 h), λ (p, q). g.1 q)
and_iff false b f g = (λ h. absurd (ground arith), λ (p, q). f.1 p)

not_iff : {A : Type 0} (a : Bool) → (a ≡ true) ↔ A → (not a ≡ true) ↔ (¬ A)
not_iff true f = (λ h. absurd (ground arith), λ n. absurd (n (f.0 refl)))
not_iff false f = (λ h p. ground (arith, f.1 p), λ n. refl)

if_iff :
    {A B : Type 0} (a b : Bool)
    → (a ≡ true) ↔ A
    → (b ≡ true) ↔ B
    → ((if a then true else b) ≡ true) ↔ (A ⊎ B)
if_iff true b f g = or_iff true b f g
if_iff false b f g = or_iff false b f g

iff_self : (a : Bool) → (a ≡ true) ↔ (a ≡ true)
iff_self a = (λ h. h, λ h. h)

any_of_iff : (s : Bytes) (words : List Bytes) → (any_of s words ≡ true) ↔ (contains s words ≡ true)
unfolding contains
any_of_iff s words =
    let same = any_congr (λ w. s == w) (λ w. w == s) words (eq_comm s) in
    (λ h. sym same ∙ h, λ h. same ∙ h)

unlike_iff :
    (tok : RawToken) (name : Bytes) → (not (has_type tok name) ≡ true) ↔ (tok.token_type ≢ name)
unfolding has_type
unlike_iff tok name = not_iff (has_type tok name) (eq_iff tok.token_type name)

opaque_iff :
    (tok : RawToken)
    → (opaque_keyword tok ≡ true)
      ↔ ((tok.token_type ≢ codes "STRING") × (tok.token_type ≢ codes "QUOTED_IDENTIFIER"))
unfolding opaque_keyword
opaque_iff tok =
    let s = unlike_iff tok (codes "STRING") in
    let q = unlike_iff tok (codes "QUOTED_IDENTIFIER") in
    (λ h. (s.0 (ground arith), q.0 (ground arith)), λ (a, b). ground (arith, s.1 a, q.1 b))

pub keyword_iff : (tok : RawToken) → (is_settings_keyword tok ≡ true) ↔ IsSettingsKeyword tok
unfolding equal_fold fold_case lower
keyword_iff tok =
    let (f, g) =
      and_iff (opaque_keyword tok) (equal_fold tok.text (codes "SETTINGS")) (opaque_iff tok)
        (eq_iff (fold_case tok.text) (codes "settings")) in
    (λ h. let ((a, b), c) = f h in (a, (b, c)), λ (a, (b, c)). g ((a, b), c))

IsSqlBearing-iff : (name : Bytes) → (sql_bearing_setting name ≡ true) ↔ IsSqlBearing name
unfolding sql_bearing_setting
IsSqlBearing-iff name = or_iff _ _ (iff_self _) (iff_self _)

analyzer_iff : (name : Bytes) → (analyzer_setting name ≡ true) ↔ IsAnalyzerSwitch name
unfolding analyzer_setting analyzer_settings
analyzer_iff name = iff_self _

IsTrueLiteral-iff : (tok : RawToken) → (true_literal_tokens (tok ∷ []) ≡ true) ↔ IsTrueLiteral tok
unfolding true_literal_tokens true_literal_spelling
IsTrueLiteral-iff tok = and_iff _ _ (any_of_iff tok.token_type _) (iff_self _)

IsEnd-iff : (toks : List RawToken) → (setting_value_ends toks ≡ true) ↔ IsEnd toks
unfolding setting_value_ends
IsEnd-iff [] = (λ h. tt, λ h. refl)
IsEnd-iff (tok ∷ toks) =
    let (f, g) =
      and_iff (opaque_keyword tok) _ (opaque_iff tok) (any_of_iff (to_upper tok.text) _) in
    if_iff _ _ (any_of_iff tok.token_type _)
      (λ h. let ((a, b), c) = f h in (a, (b, c)), λ (a, (b, c)). g ((a, b), c))

IsKept-iff : (toks : List RawToken) → (analyzer_kept toks ≡ true) ↔ IsKept toks
unfolding analyzer_kept
IsKept-iff [] = (λ h. absurd (ground arith), λ h. absurd h)
IsKept-iff (value ∷ toks) = and_iff _ _ (IsTrueLiteral-iff value) (IsEnd-iff toks)

pub IsRefused-iff :
    (tok : RawToken) (behind : List RawToken)
    → (refused_at tok behind ≡ true) ↔ IsRefused tok behind
unfolding refused_at has_type
IsRefused-iff tok [] = (λ h. absurd (ground arith), λ h. absurd h)
IsRefused-iff tok (eq ∷ value) =
    let switches =
      and_iff (analyzer_setting tok.text) (not (analyzer_kept value)) (analyzer_iff tok.text)
        (not_iff (analyzer_kept value) (IsKept-iff value)) in
    and_iff _ _ (eq_iff eq.token_type (codes "EQ")) (
      and_iff _ _ (unlike_iff tok (codes "STRING"))
        (or_iff _ _ (IsSqlBearing-iff tok.text) switches))
