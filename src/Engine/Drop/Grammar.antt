-- ===== src/Engine/Drop/Grammar.antt =====
-- The grammar of a plain DROP TABLE, and that what the check accepts is in it.
use rewriter_go.Prelude.{
  Bool-cases, List, Option-cases, [], ap, append_assoc, arith, inl, inr, length, refl, some, suc,
  sym, true, zero, ℕ, ◌&&◌, ◌++◌, ◌∙◌, ◌∷◌, ◌≡◌,
}
use rewriter_go.Engine.Drop.{
  behind_dotted, behind_exists, consume_mutation_qualified_name, consume_names, drop_ending,
  plain_drop, plain_drop_table, without_semicolon,
}
use rewriter_go.Engine.Tokens.{RawToken, has_type, is_name_tok, next_is, token_text_is}
use rewriter_go.Native.Response.{Result, ok}
use rewriter_go.Prelude.Text.{Bytes, codes}

-- `name` or `name.name`.
pub data IsName : List RawToken → Type 0 where
  one_part : (tok : RawToken) → is_name_tok tok.token_type ≡ true → IsName (tok ∷ [])
  two_parts :
      (db dot_tok table : RawToken)
      → is_name_tok db.token_type ≡ true
      → has_type dot_tok (codes "DOT") ≡ true
      → is_name_tok table.token_type ≡ true
      → IsName (db ∷ dot_tok ∷ table ∷ [])

-- One name, or names parted by commas.
pub data AreNames : List RawToken → Type 0 where
  last_name : {toks : List RawToken} → IsName toks → AreNames toks
  name_and :
      (name : List RawToken) (comma : RawToken) (names : List RawToken)
      → IsName name
      → has_type comma (codes "COMMA") ≡ true
      → AreNames names
      → AreNames (name ++ (comma ∷ names))

pub data IsEnding : List RawToken → Type 0 where
  no_ending : IsEnding []
  sync :
      (tok : RawToken)
      → has_type tok (codes "VAR") ≡ true
      → token_text_is tok (codes "SYNC") ≡ true
      → IsEnding (tok ∷ [])
  no_delay :
      (first delay : RawToken)
      → token_text_is first (codes "NO") ≡ true
      → has_type delay (codes "VAR") ≡ true
      → token_text_is delay (codes "DELAY") ≡ true
      → IsEnding (first ∷ delay ∷ [])

pub data IsIfExists : List RawToken → Type 0 where
  always : IsIfExists []
  if_exists_words :
      (a b : RawToken)
      → has_type a (codes "IF") ≡ true
      → token_text_is b (codes "EXISTS") ≡ true
      → IsIfExists (a ∷ b ∷ [])

pub data IsSemicolon : List RawToken → Type 0 where
  no_semicolon : IsSemicolon []
  semicolon : (tok : RawToken) → has_type tok (codes "SEMICOLON") ≡ true → IsSemicolon (tok ∷ [])

-- DROP TABLE [IF EXISTS] name [, name …] [SYNC | NO DELAY] [;]
pub record IsPlainDrop (toks : List RawToken) : Type 0 where
  pub word_drop : RawToken
  pub word_table : RawToken
  pub exists_words : List RawToken
  pub names : List RawToken
  pub ending : List RawToken
  pub semi : List RawToken
  pub spelled : toks ≡ (word_drop ∷ word_table ∷ (exists_words ++ (names ++ ending))) ++ semi
  pub is_drop : token_text_is word_drop (codes "DROP") ≡ true
  pub is_table : has_type word_table (codes "TABLE") ≡ true
  pub is_if_exists : IsIfExists exists_words
  pub are_names : AreNames names
  pub is_ending : IsEnding ending
  pub is_semicolon : IsSemicolon semi

one-IsName :
    (tok : RawToken) (toks rest : List RawToken)
    → is_name_tok tok.token_type ≡ true
    → behind_dotted toks ≡ rest
    → (name : List RawToken) × ((tok ∷ toks) ≡ name ++ rest) × IsName name
unfolding behind_dotted
one-IsName tok [] rest p e = (tok ∷ [], ap (λ xs. tok ∷ xs) e, one_part tok p)
one-IsName tok (d ∷ []) rest p e = (tok ∷ [], ap (λ xs. tok ∷ xs) e, one_part tok p)
one-IsName tok (d ∷ part ∷ toks) rest p e =
    elim (Bool-cases (has_type d (codes "DOT") && is_name_tok part.token_type)) [
      | inl dotted ↦
          let same : toks ≡ rest = ground arith in
          (
            tok ∷ d ∷ part ∷ [],
            ap (λ xs. tok ∷ d ∷ part ∷ xs) same,
            two_parts tok d part p (ground arith) (ground arith),
          )
      | inr plain ↦
          let same : d ∷ part ∷ toks ≡ rest = ground arith in
          (tok ∷ [], ap (λ xs. tok ∷ xs) same, one_part tok p)
    ]

consumed-IsName :
    (toks rest : List RawToken)
    → consume_mutation_qualified_name toks ≡ some rest
    → (name : List RawToken) × (toks ≡ name ++ rest) × IsName name
unfolding consume_mutation_qualified_name
consumed-IsName [] rest e = absurd (ground arith)
consumed-IsName (tok ∷ toks) rest e = elim (Bool-cases (is_name_tok tok.token_type)) [
  | inl p ↦ elim (Bool-cases (next_is (λ t. has_type t (codes "DOT")) (behind_dotted toks))) [
    | inl d ↦ absurd (ground arith)
    | inr d ↦ one-IsName tok toks rest p (ground arith)
  ]
  | inr p ↦ absurd (ground arith)
]

names-AreNames :
    (fuel : ℕ) (toks rest : List RawToken)
    → consume_names fuel toks ≡ some rest
    → (names : List RawToken) × (toks ≡ names ++ rest) × AreNames names
unfolding consume_names
names-AreNames zero toks rest e = absurd (ground arith)
names-AreNames (suc fuel) toks rest e = elim (Option-cases (consume_mutation_qualified_name toks)) [
  | inl n ↦ absurd (ground arith)
  | inr ([], n) ↦
      let (name, split, is) = consumed-IsName toks [] n in
      let same : [] ≡ rest = ground arith in
      (name, split ∙ ap (λ xs. name ++ xs) same, last_name is)
  | inr (tok ∷ others, n) ↦
      let (name, split, is) = consumed-IsName toks (tok ∷ others) n in
      elim (Bool-cases (has_type tok (codes "COMMA"))) [
        | inl c ↦
            let (names, later, are) = names-AreNames fuel others rest (ground arith) in
            (
              name ++ (tok ∷ names),
              split
                  ∙ (ap (λ xs. name ++ (tok ∷ xs)) later
                      ∙ sym (append_assoc name (tok ∷ names) rest)),
              name_and name tok names is c are,
            )
        | inr c ↦
            let same : tok ∷ others ≡ rest = ground arith in
            (name, split ∙ ap (λ xs. name ++ xs) same, last_name is)
      ]
]

accepted-IsEnding : (toks : List RawToken) → drop_ending toks ≡ true → IsEnding toks
unfolding drop_ending
accepted-IsEnding [] h = no_ending
accepted-IsEnding (a ∷ []) h = sync a (ground arith) (ground arith)
accepted-IsEnding (a ∷ b ∷ []) h = no_delay a b (ground arith) (ground arith) (ground arith)
accepted-IsEnding (a ∷ b ∷ c ∷ toks) h = absurd (ground arith)

exists-IsIfExists :
    (toks : List RawToken)
    → (words : List RawToken) × (toks ≡ words ++ behind_exists toks) × IsIfExists words
unfolding behind_exists
exists-IsIfExists [] = ([], refl, always)
exists-IsIfExists (a ∷ []) = ([], refl, always)
exists-IsIfExists (a ∷ b ∷ toks) =
    elim (Bool-cases (has_type a (codes "IF") && token_text_is b (codes "EXISTS"))) [
      | inl e ↦ (
        a ∷ b ∷ [],
        rw (behind_exists, e) refl,
        if_exists_words a b (ground arith) (ground arith),
      )
      | inr e ↦ ([], rw (behind_exists, e) refl, always)
    ]

last-IsSemicolon :
    (toks : List RawToken)
    → (semi : List RawToken) × (toks ≡ without_semicolon toks ++ semi) × IsSemicolon semi
unfolding without_semicolon
last-IsSemicolon [] = ([], refl, no_semicolon)
last-IsSemicolon (tok ∷ []) = elim (Bool-cases (has_type tok (codes "SEMICOLON"))) [
  | inl e ↦ (tok ∷ [], rw (without_semicolon, e) refl, semicolon tok e)
  | inr e ↦ ([], rw (without_semicolon, e) refl, no_semicolon)
]
last-IsSemicolon (tok ∷ next ∷ toks) =
    let (semi, split, is) = last-IsSemicolon (next ∷ toks) in (semi, ap (λ xs. tok ∷ xs) split, is)

-- What `plain_drop` accepts, without its semicolon.
abbrev IsStated : List RawToken → Type 0
IsStated toks =
    (a : RawToken) × (b : RawToken) × (exists_words : List RawToken) × (names : List RawToken)
    × (ending : List RawToken) × (toks ≡ a ∷ b ∷ (exists_words ++ (names ++ ending)))
    × (token_text_is a (codes "DROP") ≡ true)
    × (has_type b (codes "TABLE") ≡ true)
    × IsIfExists exists_words
    × AreNames names
    × IsEnding ending

plain_drop-IsStated : (toks : List RawToken) → plain_drop toks ≡ true → IsStated toks
unfolding plain_drop
plain_drop-IsStated [] h = absurd (ground arith)
plain_drop-IsStated (a ∷ []) h = absurd (ground arith)
plain_drop-IsStated (a ∷ b ∷ []) h = absurd (ground arith)
plain_drop-IsStated (a ∷ b ∷ c ∷ toks) h =
    let named = behind_exists (c ∷ toks) in
    let (words, front, may_exist) = exists-IsIfExists (c ∷ toks) in
    elim (Option-cases (consume_names (suc (length named)) named)) [
      | inl e ↦ absurd (ground arith)
      | inr (rest, e) ↦
          let (names, split, are) = names-AreNames (suc (length named)) named rest e in
          (
            a,
            b,
            words,
            names,
            rest,
            ap (λ xs. a ∷ b ∷ xs) (front ∙ ap (λ xs. words ++ xs) split),
            ground arith,
            ground arith,
            may_exist,
            are,
            accepted-IsEnding rest (ground arith),
          )
    ]

module _ (tokenize_raw : Bytes → Result (List RawToken)) where
  -- What the check of a plain DROP TABLE accepts is in its grammar: nothing stands in the statement but
  -- the two words, IF EXISTS, the names of the tables, SYNC or NO DELAY, and a semicolon.
  pub plain_drop_table-IsPlainDrop :
      (sql : Bytes) (toks : List RawToken)
      → tokenize_raw sql ≡ ok toks
      → plain_drop_table tokenize_raw sql ≡ ok true
      → IsPlainDrop toks
  unfolding plain_drop_table
  plain_drop_table-IsPlainDrop sql toks e h =
      let (semi, split, is_semi) = last-IsSemicolon toks in
      let (a, b, words, names, ending, stated, drops, table_word, may_exist, are, ends) =
        plain_drop-IsStated (without_semicolon toks) (ground arith) in
      record {
        word_drop = a;
        word_table = b;
        exists_words = words;
        names = names;
        ending = ending;
        semi = semi;
        spelled = split ∙ ap (λ xs. xs ++ semi) stated;
        is_drop = drops;
        is_table = table_word;
        is_if_exists = may_exist;
        are_names = are;
        is_ending = ends;
        is_semicolon = is_semi;
      }
