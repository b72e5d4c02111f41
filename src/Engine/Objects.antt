-- ===== src/Engine/Objects.antt =====
-- objtarget.go of internal/engine: the target of EXISTS, SHOW CREATE and DESCRIBE.
pub mod Behind
pub mod Calls
use rewriter_go.Prelude.{
  Bool, List, Option, [], all, any, drop, eqb, false, if◌then◌else◌, none, not, some, suc, true, ℕ,
  ◌&&◌, ◌++◌, ◌-◌, ◌||◌, ◌∷◌,
}
use rewriter_go.Engine.Case.{to_upper}
use rewriter_go.Engine.Grant.{digit_byte, plain_byte}
use rewriter_go.Engine.Tokens.{RawToken, any_of, has_type, is_name_tok, next_is, token_text_is}
use rewriter_go.Native.Response.{Result, err, ok}
use rewriter_go.Prelude.Text.{Bytes, codes, ◌==◌}

pub data ObjectVerb : Type 0 where
  verb_none verb_exists verb_show_create verb_describe : ObjectVerb

pub data ObjectTargetShape : Type 0 where
  shape_none shape_name shape_call shape_subquery : ObjectTargetShape

pub record ObjectTarget : Type 0 where
  pub verb : ObjectVerb
  pub temporary : Bool
  pub obj_type : Bytes
  pub db : Bytes
  pub table : Bytes
  pub shape : ObjectTargetShape
  pub trailing : Bool
  pub access_entity : Bool
  pub subquery_start : ℕ

abbrev pub no_object : ObjectTarget
no_object = record {
  verb = verb_none;
  temporary = false;
  obj_type = [];
  db = [];
  table = [];
  shape = shape_none;
  trailing = false;
  access_entity = false;
  subquery_start = 0;
}

-- The switch over the first word: the verb and the tokens behind it.
unfoldable pub leading_verb : List RawToken → Option (ObjectVerb × List RawToken)
leading_verb [] = none
leading_verb (tok ∷ toks) =
    let word = to_upper tok.text in
    if word == codes "EXISTS"
    then some (verb_exists, toks)
    else if word == codes "SHOW"
    then (if next_is (λ t. token_text_is t (codes "CREATE")) toks
        then some (verb_show_create, drop 1 toks)
        else none)
    else if any_of word (codes "DESCRIBE" ∷ codes "DESC" ∷ [])
    then some (verb_describe, toks)
    else none

abbrev pub is_temporary : List RawToken → Bool
is_temporary toks = next_is (λ t. token_text_is t (codes "TEMPORARY")) toks

abbrev pub behind_temporary : List RawToken → List RawToken
behind_temporary toks = if is_temporary toks then drop 1 toks else toks

abbrev pub type_words : List Bytes
type_words = codes "TABLE" ∷ codes "DATABASE" ∷ codes "VIEW" ∷ codes "DICTIONARY" ∷ []

abbrev pub is_typed : List RawToken → Bool
is_typed toks = next_is (λ t. any_of (to_upper t.text) type_words) toks

abbrev pub behind_type : List RawToken → List RawToken
behind_type toks = if is_typed toks then drop 1 toks else toks

unfoldable pub type_of : List RawToken → Bytes
type_of [] = codes "TABLE"
type_of (tok ∷ toks) = if is_typed (tok ∷ toks) then to_upper tok.text else codes "TABLE"

unfoldable pub is_access_entity_word : RawToken → Bool
is_access_entity_word tok =
    not (has_type tok (codes "QUOTED_IDENTIFIER") || has_type tok (codes "STRING"))
    && any_of (to_upper tok.text) (
        codes "USER"
        ∷ codes "USERS"
        ∷ codes "ROLE"
        ∷ codes "ROLES"
        ∷ codes "QUOTA"
        ∷ codes "QUOTAS"
        ∷ codes "PROFILE"
        ∷ codes "PROFILES"
        ∷ codes "POLICY"
        ∷ codes "POLICIES"
        ∷ codes "ROW"
        ∷ codes "SETTINGS"
        ∷ codes "MASKING"
        ∷ [])

abbrev pub is_show_create : ObjectVerb → Bool
is_show_create verb_show_create = true
is_show_create _ = false

-- What follows the name.
unfoldable pub followed_by : ObjectTarget → List RawToken → ObjectTarget
followed_by out toks = record out {
  shape = if next_is (λ t. has_type t (codes "L_PAREN")) toks then shape_call else shape_name;
  trailing = any (λ t. not (has_type t (codes "SEMICOLON"))) toks;
}

-- The name-run behind its first token.
unfoldable pub name_run : ObjectTarget → RawToken → List RawToken → ObjectTarget
name_run out tok (dot_tok ∷ part ∷ toks) =
    if has_type dot_tok (codes "DOT") && is_name_tok part.token_type
    then followed_by (record out { db = tok.text; table = part.text }) toks
    else followed_by (record out { table = tok.text }) (dot_tok ∷ part ∷ toks)
name_run out tok toks = followed_by (record out { table = tok.text }) toks

unfoldable pub name_target : ObjectTarget → List RawToken → ObjectTarget
name_target out [] = out
name_target out (tok ∷ toks) =
    if is_name_tok tok.token_type
    then name_run out tok toks
    else if has_type tok (codes "L_PAREN")
    then record out { shape = shape_subquery; subquery_start = tok.span_start }
    else out

-- Behind the verb.
unfoldable pub object_behind : ObjectVerb → List RawToken → ObjectTarget
object_behind verb toks =
    let typed = behind_temporary toks in
    let target = behind_type typed in
    name_target
      (record no_object {
        verb = verb;
        temporary = is_temporary toks;
        obj_type = type_of typed;
        access_entity =
            is_show_create verb && (not (is_typed typed) && next_is is_access_entity_word target);
      })
      target

unfoldable pub object_target : List RawToken → ObjectTarget
object_target toks = elim (leading_verb toks) [
  | none ↦ no_object
  | some (verb, behind) ↦ object_behind verb behind
]

unfoldable pub looks_like_bare_identifier_text : Bytes → Bool
looks_like_bare_identifier_text [] = false
looks_like_bare_identifier_text (c ∷ s) = plain_byte c && all (λ d. plain_byte d || digit_byte d) s

unfoldable pub first_dot_segment : Bytes → Bytes
first_dot_segment [] = []
first_dot_segment (c ∷ s) = let rest = first_dot_segment s in if eqb c b'.' then [] else c ∷ rest

-- What one argument adds.
unfoldable pub group_databases : List RawToken → List Bytes
group_databases (tok ∷ []) =
    if has_type tok (codes "STRING")
    then first_dot_segment tok.text ∷ []
    else if is_name_tok tok.token_type
    then tok.text ∷ []
    else []
group_databases (tok ∷ dot_tok ∷ part ∷ []) =
    if is_name_tok tok.token_type && (has_type dot_tok (codes "DOT") && is_name_tok part.token_type)
    then tok.text ∷ []
    else []
group_databases _ = []

-- The loop behind the opening bracket, with the depth, the tokens of the argument so far and what the
-- arguments before it gave; none where the call does not end.
unfoldable pub call_arg_databases :
    ℕ → List RawToken → List Bytes → List RawToken → Option (List Bytes)
call_arg_databases depth group out [] = none
call_arg_databases depth group out (tok ∷ toks) =
    let top = eqb depth 0 in
    let closes = has_type tok (codes "R_PAREN") in
    let splits = has_type tok (codes "COMMA") && top in
    let deeper =
      if has_type tok (codes "L_PAREN") then suc depth else if closes then depth - 1 else depth in
    let found = out ++ group_databases group in
    let rest =
      call_arg_databases deeper (if splits then [] else group ++ (tok ∷ []))
        (if splits then found else out) toks in
    if closes && top then some found else rest

unfoldable pub call_behind : ObjectVerb → List RawToken → Option (ObjectVerb × Bytes × List Bytes)
call_behind verb (tok ∷ paren ∷ toks) =
    if looks_like_bare_identifier_text tok.text && has_type paren (codes "L_PAREN")
    then elim (call_arg_databases 0 [] [] toks) [
      | none ↦ none
      | some dbs ↦ some (verb, tok.text, dbs)
    ]
    else none
call_behind verb toks = none

unfoldable pub object_target_function_call :
    List RawToken → Option (ObjectVerb × Bytes × List Bytes)
object_target_function_call toks = elim (leading_verb toks) [
  | none ↦ none
  | some (verb, behind) ↦ call_behind verb (behind_type (behind_temporary behind))
]

module _ (tokenize_raw : Bytes → Result (List RawToken)) where
  unfoldable pub parse_object_target : Bytes → Result ObjectTarget
  parse_object_target sql = elim (tokenize_raw sql) [
    | err e ↦ err e
    | ok toks ↦ ok (object_target toks)
  ]
