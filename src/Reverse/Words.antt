-- ===== src/Reverse/Words.antt =====
-- reverse.go: `isWordByte`, and the boundary test on the bytes around a span.
use rewriter_go.Prelude.{
  ℕ, ◌-◌, Bool, false, not, ◌&&◌, ◌||◌, none, some, eqb, leb, length, get_elem?,
}
use rewriter_go.Prelude.Text.{Bytes}

unfoldable pub is_word_byte : ℕ → Bool
is_word_byte b =
    eqb b b'_'
    || (leb b'0' b && leb b b'9')
    || (leb b'A' b && leb b b'Z')
    || (leb b'a' b && leb b b'z')

-- `isWordByte(s[i])`; the code reads only inside `s`.
unfoldable pub word_at : Bytes → ℕ → Bool
word_at s i = elim (get_elem? s i) [ none ↦ false | some b ↦ is_word_byte b ]

-- `st == 0 || !isWordByte(s[st-1])`
unfoldable pub before_ok : Bytes → ℕ → Bool
before_ok s st = eqb st 0 || not (word_at s (st - 1))

-- `en == len(s) || !isWordByte(s[en])`
unfoldable pub after_ok : Bytes → ℕ → Bool
after_ok s en = eqb en (length s) || not (word_at s en)
