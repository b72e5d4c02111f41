-- ===== src/Reverse/Boundary.antt =====
-- reverse.go: `substituteBoundary`, over the matches of the regular expression.
pub mod Replaced
use rewriter_go.Prelude.{Bool, List, [], drop, if◌then◌else◌, take, ℕ, ◌&&◌, ◌++◌, ◌-◌, ◌∷◌}
use rewriter_go.Prelude.Text.{Bytes}
use rewriter_go.Reverse.Words.{after_ok, before_ok}

-- `s[first:behind]`
abbrev pub slice : Bytes → ℕ → ℕ → Bytes
slice s first behind = take (behind - first) (drop first s)

-- The test of one match, from its first byte to the byte behind it.
unfoldable pub qualifies : Bytes → ℕ × ℕ → Bool
qualifies s (st, en) = before_ok s st && after_ok s en

-- The loop, with the end of the last replacement and the bytes written so far.
unfoldable pub substitute_from : Bytes → Bytes → ℕ → Bytes → List (ℕ × ℕ) → Bytes
substitute_from s repl last b [] = b ++ drop last s
substitute_from s repl last b ((st, en) ∷ locs) =
    let fits = qualifies s (st, en) in
    substitute_from s repl (if fits then en else last)
      (if fits then (b ++ slice s last st) ++ repl else b) locs

-- `locs` stands for the matches that the regular expression finds.
unfoldable pub substitute_boundary : Bytes → List (ℕ × ℕ) → Bytes → Bytes
substitute_boundary s [] repl = s
substitute_boundary s (loc ∷ locs) repl = substitute_from s repl 0 [] (loc ∷ locs)
