-- ===== src/Examples/Scans.antt =====
-- The token scans, the guard and the policy on namespaces at samples.
use Prim.Native.String.{String}
use rewriter_go.Prelude.{All, List, Option, [], false, none, refl, some, true, ◌↔◌, ◌∷◌, ◌≡◌}
use rewriter_go.Engine.Brackets.{check_brackets}
use rewriter_go.Engine.Brackets.Balanced.{IsBalanced, check_brackets_iff}
use rewriter_go.Engine.Case.{equal_fold, fold_case, lower}
use rewriter_go.Engine.Drop.{
  behind_dotted, behind_exists, consume_mutation_qualified_name, consume_names, drop_ending,
  plain_drop, plain_drop_table, without_semicolon,
}
use rewriter_go.Engine.Drop.Grammar.{IsPlainDrop, plain_drop_table-IsPlainDrop}
use rewriter_go.Engine.Guard.{exceeds_from, exceeds_nesting_depth, quote_mode}
use rewriter_go.Engine.Guard.Bounded.{IsShallow, exceeds_nesting_depth_iff}
use rewriter_go.Engine.Guard.Code.{outside, outside-IsCode}
use rewriter_go.Engine.Tokens.{RawToken, has_type, is_name_tok, token_text_is}
use rewriter_go.Engine.Whole.{NotInFull, Trees}
use rewriter_go.Examples.Requests.{dynamic_sample}
use rewriter_go.Examples.Toy.{answered, stated}
use rewriter_go.Handlers.Namespaces.{
  NamespaceRef, decoded, from_table_function, reject_storage_integrity_namespaces,
}
use rewriter_go.Handlers.Namespaces.Harmless.{
  IsHarmless, reject_storage_integrity_namespaces_passes,
}
use rewriter_go.Nameresolve.Contract.{storage_integrity_surface_active}
use rewriter_go.Nameresolve.Selecting.{mode_dynamic}
use rewriter_go.Native.Engine.{node_select}
use rewriter_go.Native.Response.{Result, ok, unsupported_statement}
use rewriter_go.Prelude.Text.{Bytes, codes, ◌==◌}

abbrev pub word : String → String → RawToken
word kind text = record {
  token_type = codes kind;
  text = codes text;
  source = codes text;
  span_start = 0;
  span_end = 1;
}

-- DROP TABLE IF EXISTS db.t, u SYNC;
abbrev dropping : List RawToken
dropping =
    word "DROP" "DROP"
    ∷ word "TABLE" "TABLE"
    ∷ word "IF" "IF"
    ∷ word "EXISTS" "EXISTS"
    ∷ word "VAR" "db"
    ∷ word "DOT" "."
    ∷ word "QUOTED_IDENTIFIER" "t"
    ∷ word "COMMA" ","
    ∷ word "VAR" "u"
    ∷ word "VAR" "SYNC"
    ∷ word "SEMICOLON" ";"
    ∷ []

abbrev drop_lexer : Bytes → Result (List RawToken)
drop_lexer sql = ok dropping

dropping-accepted : plain_drop_table drop_lexer stated ≡ ok true
unfolding plain_drop_table plain_drop without_semicolon behind_exists consume_names
    consume_mutation_qualified_name behind_dotted drop_ending token_text_is equal_fold fold_case
    lower has_type is_name_tok ◌==◌
dropping-accepted = refl

plain_drop_table-IsPlainDrop_example : IsPlainDrop dropping
plain_drop_table-IsPlainDrop_example =
    plain_drop_table-IsPlainDrop drop_lexer stated dropping refl dropping-accepted

-- ([])
abbrev nested : List RawToken
nested = word "L_PAREN" "(" ∷ word "L_BRACKET" "[" ∷ word "R_BRACKET" "]" ∷ word "R_PAREN" ")" ∷ []

check_brackets_iff_example : (check_brackets nested ≡ none) ↔ IsBalanced nested
check_brackets_iff_example = check_brackets_iff nested

-- Trees that are their texts, which cut at a word parse to other trees.
abbrev trees : Trees Bytes
trees = record {
  tokenize_raw = λ sql. ok (word "SELECT" "SELECT" ∷ word "NUMBER" "1" ∷ []);
  parse_one = λ sql. ok sql;
  node_kind = λ ast. ok node_select;
  same_ast = λ a b. a == b;
  polyglot_command_sql = λ ast. ok ast;
  insert_has_format_clause = λ ast. false;
}

abbrev error_name : NotInFull → Bytes
error_name why = codes "not parsed in full"

-- Brackets in a literal are not counted.
abbrev calls : Bytes
calls = codes "f(g(')))'), x)"

calls-shallow : exceeds_nesting_depth calls 2 ≡ false
unfolding exceeds_nesting_depth exceeds_from quote_mode
calls-shallow = refl

-- The brackets of the literal stand in none of these bytes.
calls-outside : outside calls ≡ codes "f(g('), x)"
unfolding quote_mode
calls-outside = refl

exceeds_nesting_depth_iff_example :
    (exceeds_nesting_depth calls 2 ≡ false) ↔ IsShallow 2 (outside calls)
exceeds_nesting_depth_iff_example =
    exceeds_nesting_depth_iff calls (outside calls) 2 (outside-IsCode none calls)

-- merge('db2', 't')
abbrev merged : NamespaceRef
merged = record {
  target = record { db = codes "db2"; table = codes "t"; alias = [] };
  source = from_table_function;
  name = codes "merge";
  resolved = true;
  uses_current_database = false;
}

abbrev decoding : NamespaceRef → Option NamespaceRef
decoding ref = some ref

surface-active : storage_integrity_surface_active dynamic_sample ≡ true
unfolding storage_integrity_surface_active
surface-active = refl

reject_storage_integrity_namespaces_passes_example :
    (reject_storage_integrity_namespaces decoding answered
        (merged ∷ [])
        (mode_dynamic dynamic_sample)
        unsupported_statement
      ≡ none)
    ↔ All (λ ref. IsHarmless dynamic_sample (decoded decoding ref)) (merged ∷ [])
reject_storage_integrity_namespaces_passes_example =
    reject_storage_integrity_namespaces_passes decoding answered (merged ∷ []) dynamic_sample
      unsupported_statement surface-active
