-- ===== src/Nameescape.antt =====
-- engine/nameescape.go: the escapes of quoted identifiers and string literals, and the quoting of a
-- name in generated SQL. The index of a loop is the text that is left.
pub mod RoundTrip
pub mod Loops
use mathlib.Core.List.{reverse}
use rewriter_go.Prelude.{
  Bool, Option, [], eqb, if◌then◌else◌, leb, length, ltb, none, not, some, suc, zero, ℕ, ◌%◌, ◌&&◌,
  ◌*◌, ◌++◌, ◌+◌, ◌-◌, ◌/◌, ◌||◌, ◌∷◌,
}
use rewriter_go.Prelude.Text.{Bytes, has_byte, has_prefix, has_suffix}

-- The value of a hexadecimal digit; the -1 of any other byte is written as 255, the same modulo 256.
unfoldable pub hex_digit : ℕ → ℕ
hex_digit c =
    if leb b'0' c && leb c b'9'
    then c - b'0'
    else if leb b'a' c && leb c b'f'
    then c - b'a' + 10
    else if leb b'A' c && leb c b'F'
    then c - b'A' + 10
    else 255

unfoldable pub unhex2 : ℕ → ℕ → ℕ
unhex2 a b = (hex_digit a * 16 + hex_digit b) % 256

-- The control byte of a letter, and of `0`.
unfoldable pub control : ℕ → Option ℕ
control c =
    if eqb c b'a'
    then some 7
    else if eqb c b'b'
    then some 8
    else if eqb c b'e'
    then some 27
    else if eqb c b'f'
    then some 12
    else if eqb c b'n'
    then some 10
    else if eqb c b'r'
    then some 13
    else if eqb c b't'
    then some 9
    else if eqb c b'v'
    then some 11
    else if eqb c b'0'
    then some 0
    else none

-- A bare character, a raw control byte, or an escape that keeps its backslash.
unfoldable pub kept_or_bare : ℕ → Bytes
kept_or_bare c =
    if eqb c b'\\' || eqb c b'\'' || eqb c b'"' || eqb c b'`' || eqb c b'/' || eqb c b'='
    then c ∷ []
    else if leb c 31
    then c ∷ []
    else b'\\' ∷ c ∷ []

unfoldable pub escaped : ℕ → Bytes
escaped c = if eqb c b'N' then [] else elim (control c) [ some d ↦ d ∷ [] | none ↦ kept_or_bare c ]

-- The two bytes behind `\x`, and what is left behind them.
unfoldable pub unescape_hex : Bytes → Option (Bytes × Bytes)
unescape_hex [] = none
unescape_hex (a ∷ []) = none
unescape_hex (a ∷ b ∷ s) = some (unhex2 a b ∷ [], s)

-- The escape whose backslash stands before the given text: its bytes, and the text behind it.
unfoldable pub unescape : Bytes → Option (Bytes × Bytes)
unescape [] = none
unescape (c ∷ s) = if eqb c b'x' || eqb c b'X' then unescape_hex s else some (escaped c, s)

-- What one round of a loop does: it returns, or it goes on with the bytes written and the text left.
pub data Step {ℓ} (A : Type ℓ) : Type ℓ where
  stop : A → Step A
  go : Bytes → Bytes → Step A

-- A loop on fuel; the text gets shorter in each round.
unfoldable pub run {ℓ} : {A : Type ℓ} → A → (Bytes → Bytes → Step A) → ℕ → Bytes → Bytes → A
run out step zero b s = out
run out step (suc fuel) b s = elim (step b s) [ stop r ↦ r | go b2 s2 ↦ run out step fuel b2 s2 ]

unfoldable pub name_escape : Bytes → Option (Bytes × Bytes) → Step (Option Bytes)
name_escape b none = stop none
name_escape b (some (out, s)) = go (b ++ out) s

-- `none` is ok = false.
unfoldable pub name_step : Bytes → Bytes → Step (Option Bytes)
unfolding name_escape
name_step b [] = stop (some b)
name_step b (c ∷ s) = if eqb c b'\\' then name_escape b (unescape s) else go (b ++ (c ∷ [])) s

unfoldable pub decode_identifier_escapes : Bytes → Option Bytes
decode_identifier_escapes s =
    if has_byte b'\\' s then run none name_step (length s + 1) [] s else some s

-- The text and the class of `quotedDecode`; a rejected spelling has no text.
pub data QuotedDecode : Type 0 where
  decoded_exact decoded_not_utf8 : Bytes → QuotedDecode
  decoded_rejected : QuotedDecode

-- `drop_quote` takes away the three bytes of an English-style quote.
unfoldable pub drop_quote : Bytes → Bytes
drop_quote (_ ∷ _ ∷ _ ∷ s) = s
drop_quote _ = []

abbrev pub left_double_quote : Bytes
left_double_quote = 226 ∷ 128 ∷ 156 ∷ []

abbrev pub right_double_quote : Bytes
right_double_quote = 226 ∷ 128 ∷ 157 ∷ []

-- An identifier may not be empty.
unfoldable pub named : QuotedDecode → QuotedDecode
named (decoded_exact []) = decoded_rejected
named d = d

unfoldable pub decode_english : Bytes → QuotedDecode
decode_english raw =
    if ltb (length raw) 6 || not (has_suffix raw right_double_quote)
    then decoded_rejected
    else named (decoded_exact (reverse (drop_quote (reverse (drop_quote raw)))))

-- `valid` stands for `utf8.ValidString`.
module _ (valid : Bytes → Bool) where
  unfoldable pub closed : Bytes → QuotedDecode
  closed b = if valid b then decoded_exact b else decoded_not_utf8 b

  -- Behind a quote character: another one, the end, or text that may not be there.
  unfoldable pub at_quote : ℕ → Bytes → Bytes → Step QuotedDecode
  at_quote q b [] = stop (closed b)
  at_quote q b (c ∷ s) = if eqb c q then go (b ++ (q ∷ [])) s else stop decoded_rejected

  -- An escape that reaches the end took the closing quote with it.
  unfoldable pub at_escape : Bytes → Option (Bytes × Bytes) → Step QuotedDecode
  at_escape b none = stop decoded_rejected
  at_escape b (some (out, [])) = stop decoded_rejected
  at_escape b (some (out, c ∷ s)) = go (b ++ out) (c ∷ s)

  unfoldable pub body_step : ℕ → Bytes → Bytes → Step QuotedDecode
  body_step q b [] = stop decoded_rejected
  body_step q b (c ∷ s) =
      if eqb c q
      then at_quote q b s
      else if eqb c b'\\'
      then at_escape b (unescape s)
      else go (b ++ (c ∷ [])) s

  -- The loop starts behind the first byte of `raw`.
  unfoldable pub decode_quoted_body : Bytes → ℕ → QuotedDecode
  decode_quoted_body [] q = decoded_rejected
  decode_quoted_body (c ∷ s) q = run decoded_rejected (body_step q) (length s + 1) [] s

  unfoldable pub decode_marked : Bytes → QuotedDecode
  decode_marked [] = decoded_rejected
  decode_marked (c ∷ []) = decoded_rejected
  decode_marked (c ∷ d ∷ s) =
      if not (eqb c b'`') && not (eqb c b'"')
      then decoded_rejected
      else named (decode_quoted_body (c ∷ d ∷ s) c)

  unfoldable pub decode_quoted_identifier : Bytes → QuotedDecode
  decode_quoted_identifier raw =
      if has_prefix raw left_double_quote then decode_english raw else decode_marked raw

  unfoldable pub decode_quoted_string : Bytes → QuotedDecode
  decode_quoted_string [] = decoded_rejected
  decode_quoted_string (c ∷ []) = decoded_rejected
  decode_quoted_string (c ∷ d ∷ s) =
      if not (eqb c b'\'') then decoded_rejected else decode_quoted_body (c ∷ d ∷ s) b'\''

-- The digit `hex[d]` of a number below 16.
unfoldable pub hex : ℕ → ℕ
hex d = if ltb d 10 then b'0' + d else b'A' + (d - 10)

unfoldable pub quote_byte : ℕ → Bytes
quote_byte c =
    if eqb c b'`'
    then b'`' ∷ b'`' ∷ []
    else if eqb c b'\\'
    then b'\\' ∷ b'\\' ∷ []
    else if ltb c 32 || eqb c 127
    then b'\\' ∷ b'x' ∷ hex (c / 16) ∷ hex (c % 16) ∷ []
    else c ∷ []

unfoldable pub quote_bytes : Bytes → Bytes
quote_bytes [] = []
quote_bytes (c ∷ name) = quote_byte c ++ quote_bytes name

unfoldable pub quote_identifier_sql : Bytes → Bytes
quote_identifier_sql name = b'`' ∷ (quote_bytes name ++ (b'`' ∷ []))
