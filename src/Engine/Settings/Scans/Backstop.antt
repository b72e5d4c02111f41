-- ===== src/Engine/Settings/Scans/Backstop.antt =====
-- What the backstop finds.
use rewriter_go.Prelude.{
  Bool-cases, List, [], ap, arith, inl, inr, is_some, refl, true, ◌++◌, ◌↔◌, ◌∷◌, ◌≡◌,
}
use rewriter_go.Engine.Case.{to_upper}
use rewriter_go.Engine.Settings.Scans.{
  behind_first, first_refused, is_settings_keyword, refused_at, settings_backstop,
}
use rewriter_go.Engine.Settings.Scans.Refused.{
  IsRefused, IsSettingsKeyword, keyword_iff, IsRefused-iff,
}
use rewriter_go.Engine.Tokens.{RawToken}
use rewriter_go.Native.Response.{Result, ok}
use rewriter_go.Prelude.Text.{Bytes, codes}
use rewriter_go.Reverse.Withheld.{index}

-- Somewhere behind a SETTINGS keyword stands an assignment to a refused setting.
pub record IsHit (toks : List RawToken) : Type 0 where
  pub before : List RawToken
  pub keyword : RawToken
  pub between : List RawToken
  pub tok : RawToken
  pub behind_it : List RawToken
  pub split : toks ≡ before ++ (keyword ∷ (between ++ (tok ∷ behind_it)))
  pub is_keyword : IsSettingsKeyword keyword
  pub refused : IsRefused tok behind_it

-- The token that the loop stops at.
pub record IsStop (toks : List RawToken) : Type 0 where
  pub between : List RawToken
  pub tok : RawToken
  pub behind_it : List RawToken
  pub split : toks ≡ between ++ (tok ∷ behind_it)
  pub refused : refused_at tok behind_it ≡ true

first_refused-IsStop : (toks : List RawToken) → is_some (first_refused toks) ≡ true → IsStop toks
unfolding first_refused
first_refused-IsStop [] h = absurd (ground arith)
first_refused-IsStop (tok ∷ toks) h = elim (Bool-cases (refused_at tok toks)) [
  | inl e ↦ record { between = []; tok = tok; behind_it = toks; split = refl; refused = e }
  | inr e ↦
      let later = first_refused-IsStop toks (ground arith) in
      record {
        between = tok ∷ later.between;
        tok = later.tok;
        behind_it = later.behind_it;
        split = ap (λ xs. tok ∷ xs) later.split;
        refused = later.refused;
      }
]

first_refused_hits :
    (between : List RawToken) (tok : RawToken) (behind_it : List RawToken)
    → refused_at tok behind_it ≡ true
    → is_some (first_refused (between ++ (tok ∷ behind_it))) ≡ true
unfolding first_refused
first_refused_hits [] tok behind_it h = ground arith
first_refused_hits (b ∷ between) tok behind_it h =
    let later = first_refused_hits between tok behind_it h in
    elim (Bool-cases (refused_at b (between ++ (tok ∷ behind_it)))) [
      | inl e ↦ ground arith
      | inr e ↦ ground arith
    ]

first_refused-append :
    (xs ys : List RawToken)
    → is_some (first_refused ys) ≡ true
    → is_some (first_refused (xs ++ ys)) ≡ true
unfolding first_refused
first_refused-append [] ys h = h
first_refused-append (x ∷ xs) ys h = elim (Bool-cases (refused_at x (xs ++ ys))) [
  | inl e ↦ ground arith
  | inr e ↦ ground (arith, first_refused-append xs ys h)
]

IsHit-of_stop :
    (tok : RawToken) (toks : List RawToken)
    → is_settings_keyword tok ≡ true
    → IsStop toks
    → IsHit (tok ∷ toks)
IsHit-of_stop tok toks e s = record {
  before = [];
  keyword = tok;
  between = s.between;
  tok = s.tok;
  behind_it = s.behind_it;
  split = ap (λ xs. tok ∷ xs) s.split;
  is_keyword = (keyword_iff tok).0 e;
  refused = (IsRefused-iff s.tok s.behind_it).0 s.refused;
}

IsHit-behind : (tok : RawToken) (toks : List RawToken) → IsHit toks → IsHit (tok ∷ toks)
IsHit-behind tok toks h = record {
  before = tok ∷ h.before;
  keyword = h.keyword;
  between = h.between;
  tok = h.tok;
  behind_it = h.behind_it;
  split = ap (λ xs. tok ∷ xs) h.split;
  is_keyword = h.is_keyword;
  refused = h.refused;
}

find-IsHit :
    (toks : List RawToken)
    → is_some (first_refused (behind_first is_settings_keyword toks)) ≡ true
    → IsHit toks
unfolding behind_first first_refused
find-IsHit [] h = absurd (ground arith)
find-IsHit (tok ∷ toks) h = elim (Bool-cases (is_settings_keyword tok)) [
  | inl e ↦ IsHit-of_stop tok toks e (first_refused-IsStop toks (ground arith))
  | inr e ↦ IsHit-behind tok toks (find-IsHit toks (ground arith))
]

found_behind :
    (before : List RawToken) (keyword : RawToken) (rest : List RawToken)
    → is_settings_keyword keyword ≡ true
    → is_some (first_refused rest) ≡ true
    → is_some (first_refused (behind_first is_settings_keyword (before ++ (keyword ∷ rest)))) ≡ true
unfolding behind_first
found_behind [] keyword rest k h = ground arith
found_behind (b ∷ before) keyword rest k h = elim (Bool-cases (is_settings_keyword b)) [
  | inl e ↦
      let far : is_some (first_refused (keyword ∷ rest)) ≡ true =
        first_refused-append (keyword ∷ []) rest h in
      ground (arith, first_refused-append before (keyword ∷ rest) far)
  | inr e ↦ ground (arith, found_behind before keyword rest k h)
]

hit-found :
    (toks : List RawToken)
    → IsHit toks
    → is_some (first_refused (behind_first is_settings_keyword toks)) ≡ true
hit-found toks h = rw (h.split) (
    found_behind h.before h.keyword (h.between ++ (h.tok ∷ h.behind_it))
      ((keyword_iff h.keyword).1 h.is_keyword)
      (first_refused_hits h.between h.tok h.behind_it
        ((IsRefused-iff h.tok h.behind_it).1 h.refused)))

module _ (tokenize_raw : Bytes → Result (List RawToken)) where
  -- On a text that spells the word SETTINGS, and that the lexer reads, the backstop refuses exactly
  -- when behind some SETTINGS keyword, however the text is built, there stands an assignment to a
  -- refused setting, or to an analyzer switch with more than a true literal.
  pub settings_backstop_iff :
      (sql : Bytes) (toks : List RawToken)
      → tokenize_raw sql ≡ ok toks
      → is_some (index (to_upper sql) (codes "SETTINGS")) ≡ true
      → (is_some (settings_backstop tokenize_raw sql) ≡ true) ↔ IsHit toks
  unfolding settings_backstop
  settings_backstop_iff sql toks e w =
      (λ h. find-IsHit toks (ground arith), λ h. let f = hit-found toks h in ground arith)
