-- ===== src/Reverse/Withheld.antt =====
-- withheld.go: `ContainsIdentifier`, `MentionsHidden`, and the texts of a withheld message.
pub mod Search
pub mod Mentions
use rewriter_go.Prelude.{
  ℕ, zero, suc, ◌+◌, Bool, true, false, not, ◌&&◌, ◌||◌, List, [], ◌∷◌, ◌++◌, Option, none, some,
  leb, length, drop, any, if◌then◌else◌, is_some,
}
use rewriter_go.Prelude.Text.{Bytes, ◌==◌, codes, has_prefix}
use rewriter_go.Reverse.Words.{before_ok, after_ok}

unfoldable pub withheld_message : Bytes
withheld_message =
    codes "Query failed. The error details were withheld: the rewriter could not map them "
    ++ codes "back to the original query within its limits."

unfoldable pub withheld_reason_message : Bytes → Bytes
withheld_reason_message reason = codes "error message withheld: " ++ reason

-- `strings.Index(s, p)`; `none` is -1.
unfoldable pub index : Bytes → Bytes → Option ℕ
index [] p = if p == [] then some 0 else none
index (c ∷ s) p =
    if has_prefix (c ∷ s) p
    then some 0
    else elim (index s p) [ none ↦ none | some i ↦ some (suc i) ]

-- The loop of `ContainsIdentifier`, on fuel; `from` grows in each round.
unfoldable pub search_from : ℕ → Bytes → Bytes → ℕ → Bool
search_from zero s ident from = false
search_from (suc fuel) s ident from =
    if leb (from + length ident) (length s)
    then elim (index (drop from s) ident) [
      | none ↦ false
      | some i ↦
          let st = from + i in
          let rest = search_from fuel s ident (st + 1) in
          if before_ok s st && after_ok s (st + length ident) then true else rest
    ]
    else false

unfoldable pub contains_identifier : Bytes → Bytes → Bool
contains_identifier s ident = if ident == [] then false else search_from (length s + 1) s ident 0

unfoldable pub mentions_hidden : Bytes → List Bytes → List Bytes → Bool
mentions_hidden s identifiers literals =
    if any (λ ident. contains_identifier s ident) identifiers
    then true
    else any (λ lit. not (lit == []) && is_some (index s lit)) literals
