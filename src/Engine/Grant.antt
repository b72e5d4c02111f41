-- ===== src/Engine/Grant.antt =====
-- grant.go of internal/engine: what is read of GRANT and REVOKE, and the marker statement.
pub mod Identity
pub mod Spelling
use rewriter_go.Prelude.{
  Bool, List, Option, [], all, drop, eqb, false, if◌then◌else◌, leb, length, ltb, none, not, some,
  take, true, ℕ, ◌&&◌, ◌++◌, ◌||◌, ◌∷◌,
}
use rewriter_go.Engine.Case.{to_upper}
use rewriter_go.Engine.Tokens.{RawToken, has_type, is_name_tok, next_is, token_text_is}
use rewriter_go.Nameescape.{quote_identifier_sql}
use rewriter_go.Native.Response.{Result, err, ok}
use rewriter_go.Prelude.Text.{Bytes, codes, has_byte, ◌==◌}

pub record GrantPrivilege : Type 0 where
  pub name : Bytes
  pub columns : List Bytes

-- The target of GRANT and REVOKE, decoded from the tokens.
pub record GrantSecurable : Type 0 where
  pub db : Bytes
  pub table : Bytes
  pub all_tables : Bool
  pub any_database : Bool
  pub unrepresentable : Bool

abbrev pub no_securable : GrantSecurable
no_securable = record {
  db = [];
  table = [];
  all_tables = false;
  any_database = false;
  unrepresentable = false;
}

-- `GrantSecurable.Flat`.
unfoldable pub flat : GrantSecurable → Bytes
flat s =
    let table = if s.all_tables then codes "*" else s.table in
    let db = if s.any_database then codes "*" else s.db in
    if db == [] then table else db ++ (codes "." ++ table)

abbrev pub plain_byte : ℕ → Bool
plain_byte c = eqb c b'_' || (leb b'a' c && leb c b'z') || (leb b'A' c && leb c b'Z')

abbrev pub digit_byte : ℕ → Bool
digit_byte c = leb b'0' c && leb c b'9'

-- `needsQuoting`: a name that is not a word of ASCII letters, digits and underscores.
unfoldable pub needs_quoting : Bytes → Bool
needs_quoting [] = true
needs_quoting (c ∷ s) = not (plain_byte c && all (λ d. plain_byte d || digit_byte d) s)

unfoldable pub quoted_part : Bytes → Bool → Bytes
quoted_part name star =
    if star then codes "*" else if needs_quoting name then quote_identifier_sql name else name

-- `GrantSecurable.Quoted`.
unfoldable pub quoted : GrantSecurable → Bytes
quoted s =
    let table = quoted_part s.table s.all_tables in
    if s.db == [] && not s.any_database
    then table
    else quoted_part s.db s.any_database ++ (codes "." ++ table)

-- What `read` makes of a token: a name and whether it is the unquoted star.
unfoldable pub read_part : RawToken → Option (Bytes × Bool)
read_part tok =
    if not (has_type tok (codes "QUOTED_IDENTIFIER")) && tok.text == codes "*"
    then some ([], true)
    else if not (is_name_tok tok.token_type)
    then none
    else some (tok.text, false)

abbrev pub single : Bytes × Bool → GrantSecurable
single (name, star) = record {
  db = [];
  table = name;
  all_tables = star;
  any_database = false;
  unrepresentable = false;
}

abbrev pub qualified : Bytes × Bool → Bytes × Bool → GrantSecurable
qualified (db, any_db) (table, star) = record {
  db = db;
  table = table;
  all_tables = star;
  any_database = any_db;
  unrepresentable = false;
}

-- A pair of two empty names without a star counts as no pair.
abbrev pub nothing_named : Bytes × Bool → Bytes × Bool → Bool
nothing_named (db, any_db) (table, star) = db == [] && (table == [] && (not any_db && not star))

unfoldable pub named_by : Bytes × Bool → List RawToken → GrantSecurable
named_by first (dot_tok ∷ tok ∷ toks) =
    if has_type dot_tok (codes "DOT")
    then elim (read_part tok) [
      | none ↦ single first
      | some second ↦ if nothing_named first second then single first else qualified first second
    ]
    else single first
named_by first toks = single first

abbrev pub marked : GrantSecurable → GrantSecurable
marked s = record s { unrepresentable = has_byte b'*' s.db || has_byte b'*' s.table }

unfoldable pub token_securable : List RawToken → GrantSecurable
token_securable [] = no_securable
token_securable (tok ∷ []) = no_securable
token_securable (tok ∷ next ∷ toks) =
    let rest = token_securable (next ∷ toks) in
    if not (has_type tok (codes "ON")) || has_type next (codes "CLUSTER")
    then rest
    else elim (read_part next) [ none ↦ no_securable | some first ↦ marked (named_by first toks) ]

unfoldable pub tokens_have_securable_on : List RawToken → Bool
tokens_have_securable_on [] = false
tokens_have_securable_on (tok ∷ toks) =
    let rest = tokens_have_securable_on toks in
    if has_type tok (codes "ON") && not (next_is (λ t. has_type t (codes "CLUSTER")) toks)
    then true
    else rest

unfoldable pub tokens_have_replace_option : List RawToken → Bool
tokens_have_replace_option [] = false
tokens_have_replace_option (tok ∷ toks) =
    let rest = tokens_have_replace_option toks in
    if token_text_is tok (codes "WITH") && next_is (λ t. token_text_is t (codes "REPLACE")) toks
    then true
    else rest

-- A span that does not lie in the text is not cut, and the search goes on.
unfoldable pub strip_on_cluster : Bytes → List RawToken → Bytes
strip_on_cluster sql (tok ∷ cluster ∷ name ∷ toks) =
    let rest = strip_on_cluster sql (cluster ∷ name ∷ toks) in
    if has_type tok (codes "ON")
      && (has_type cluster (codes "CLUSTER")
          && (leb name.span_end (length sql) && ltb tok.span_start name.span_end))
    then take tok.span_start sql ++ drop name.span_end sql
    else rest
strip_on_cluster sql toks = sql

-- What `decodeGrantNode` reads in the node of the generic dialect.
pub record GrantNode : Type 0 where
  pub securable_name : Bytes
  pub node_privileges : List GrantPrivilege
  pub node_principals : List Bytes
  pub node_grant_option : Bool

pub record GrantParse : Type 0 where
  pub is_grant_verb : Bool
  pub is_revoke : Bool
  pub is_attach : Bool
  pub has_replace : Bool
  pub has_on : Bool
  pub structured : Bool
  pub privileges : List GrantPrivilege
  pub target : GrantSecurable
  pub principals : List Bytes
  pub grant_option : Bool
  pub marker : Bytes

abbrev pub not_grant : GrantParse
not_grant = record {
  is_grant_verb = false;
  is_revoke = false;
  is_attach = false;
  has_replace = false;
  has_on = false;
  structured = false;
  privileges = [];
  target = no_securable;
  principals = [];
  grant_option = false;
  marker = [];
}

-- The external parser and generator, and the two functions that read and write its node.
pub record GrantNodes (Ast : Type 0) : Type 0 where
  pub tokenize_raw : Bytes → Result (List RawToken)
  pub parse_generic : Bytes → Result Ast
  pub decode_grant_node : Ast → Result GrantNode
  pub set_grant_securable_name : Ast → Bytes → Result Ast
  pub generate : Ast → Result Bytes

-- The switch over the first token: the parse so far, or none where the statement is no GRANT or REVOKE.
unfoldable pub grant_verb : RawToken → List RawToken → Option GrantParse
grant_verb tok toks =
    let word = to_upper tok.text in
    if word == codes "GRANT"
    then some (record not_grant { is_grant_verb = true })
    else if word == codes "REVOKE"
    then some (record not_grant { is_grant_verb = true; is_revoke = true })
    else if word == codes "ATTACH" && next_is (λ t. token_text_is t (codes "GRANT")) toks
    then some (record not_grant { is_grant_verb = true; is_attach = true })
    else none

-- The flags and the target that the tokens give.
unfoldable pub from_tokens : List RawToken → GrantParse → GrantParse
from_tokens toks gp =
    let on = tokens_have_securable_on toks in
    record gp {
      has_on = on;
      has_replace = tokens_have_replace_option toks;
      target = if on then token_securable toks else no_securable;
    }

unfoldable pub from_node : GrantNode → GrantParse → GrantParse
from_node read gp = record gp {
  privileges = read.node_privileges;
  principals = read.node_principals;
  grant_option = read.node_grant_option;
}

module _ {Ast : Type 0} (G : GrantNodes Ast) where
  -- From the name of the target on: any failure leaves the parse as it is.
  unfoldable pub marked_parse : Ast → GrantParse → GrantParse
  marked_parse node gp = elim (G.set_grant_securable_name node (quoted gp.target)) [
    | err _ ↦ gp
    | ok named ↦ elim (G.generate named) [
      | err _ ↦ gp
      | ok text ↦ record gp { marker = text; structured = true }
    ]
  ]

  unfoldable pub decoded_parse : Ast → GrantParse → GrantParse
  decoded_parse node gp = elim (G.decode_grant_node node) [
    | err _ ↦ gp
    | ok read ↦
        if read.securable_name == flat gp.target
        then marked_parse node (from_node read gp)
        else from_node read gp
  ]

  unfoldable pub structured_parse : Bytes → List RawToken → GrantParse → GrantParse
  structured_parse sql toks gp =
      if gp.is_attach || (not gp.has_on || gp.has_replace)
      then gp
      else elim (G.parse_generic (strip_on_cluster sql toks)) [
        | err _ ↦ gp
        | ok node ↦ decoded_parse node gp
      ]

  unfoldable pub grant_of_tokens : Bytes → List RawToken → GrantParse
  grant_of_tokens sql [] = not_grant
  grant_of_tokens sql (tok ∷ toks) = elim (grant_verb tok toks) [
    | none ↦ not_grant
    | some gp ↦ structured_parse sql (tok ∷ toks) (from_tokens (tok ∷ toks) gp)
  ]

  unfoldable pub parse_grant : Bytes → Result GrantParse
  parse_grant sql = elim (G.tokenize_raw sql) [
    | err e ↦ err e
    | ok toks ↦ ok (grant_of_tokens sql toks)
  ]
