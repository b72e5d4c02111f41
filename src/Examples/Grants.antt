-- ===== src/Examples/Grants.antt =====
-- grant.go of internal/engine at concrete statements.
use rewriter_go.Prelude.{List, [], false, true, refl, ◌∷◌, ◌++◌, ◌≡◌}
use rewriter_go.Examples.Scans.{word}
use rewriter_go.Engine.Grant.{
  GrantNodes, GrantParse, decoded_parse, flat, from_node, from_tokens, grant_of_tokens, grant_verb,
  marked_parse, named_by, needs_quoting, parse_grant, quoted, quoted_part, read_part,
  strip_on_cluster, structured_parse, token_securable, tokens_have_replace_option,
  tokens_have_securable_on,
}
use rewriter_go.Engine.Grant.Identity.{IsMarker, IsTargeted, parse_grant_structured}
use rewriter_go.Engine.Grant.Spelling.{quoted_part_injective}
use rewriter_go.Engine.Case.{equal_fold, fold_case, lower, to_upper, upper}
use rewriter_go.Engine.Tokens.{RawToken, has_type, is_name_tok, token_text_is}
use rewriter_go.Nameescape.{hex, quote_byte, quote_bytes, quote_identifier_sql}
use rewriter_go.Native.Response.{ok}
use rewriter_go.Prelude.Text.{Bytes, codes, has_byte, ◌==◌}

-- GRANT SELECT ON db1.`a.b` TO u
abbrev granting : List RawToken
granting =
    word "GRANT" "GRANT"
    ∷ word "SELECT" "SELECT"
    ∷ word "ON" "ON"
    ∷ word "VAR" "db1"
    ∷ word "DOT" "."
    ∷ word "QUOTED_IDENTIFIER" "a.b"
    ∷ word "TO" "TO"
    ∷ word "VAR" "u"
    ∷ []

abbrev grant_sql : Bytes
grant_sql = codes "GRANT SELECT ON db1.`a.b` TO u"

-- Trees that are texts.
abbrev grants : GrantNodes Bytes
grants = record {
  tokenize_raw = λ sql. ok granting;
  parse_generic = λ sql. ok sql;
  decode_grant_node = λ node. ok (record {
    securable_name = codes "db1.a.b";
    node_privileges = record { name = codes "SELECT"; columns = [] } ∷ [];
    node_principals = codes "u" ∷ [];
    node_grant_option = false;
  });
  set_grant_securable_name = λ node name. ok (codes "GRANT SELECT ON " ++ name);
  generate = λ node. ok (node ++ codes " TO u");
}

abbrev granted : GrantParse
granted = grant_of_tokens grants grant_sql granting

granted-parsed : parse_grant grants grant_sql ≡ ok granted
unfolding parse_grant
granted-parsed = refl

granted-structured : granted.structured ≡ true
unfolding grant_of_tokens grant_verb to_upper upper structured_parse from_tokens
    tokens_have_securable_on tokens_have_replace_option has_type token_text_is equal_fold fold_case
    lower decoded_parse flat token_securable read_part from_node marked_parse named_by needs_quoting
    quoted quoted_part strip_on_cluster is_name_tok hex quote_byte quote_bytes quote_identifier_sql
    has_byte ◌==◌
granted-structured = refl

granted-marker : granted.marker ≡ codes "GRANT SELECT ON db1.`a.b` TO u"
unfolding grant_of_tokens grant_verb to_upper upper structured_parse from_tokens
    tokens_have_securable_on tokens_have_replace_option has_type token_text_is equal_fold fold_case
    lower decoded_parse flat token_securable read_part from_node marked_parse named_by needs_quoting
    quoted quoted_part strip_on_cluster is_name_tok hex quote_byte quote_bytes quote_identifier_sql
    has_byte ◌==◌
granted-marker = refl

parse_grant_structured_example :
    (toks : List RawToken) × (grants.tokenize_raw grant_sql ≡ ok toks)
    × IsTargeted grants toks granted
    × IsMarker grants grant_sql toks granted
parse_grant_structured_example =
    parse_grant_structured grants grant_sql granted granted-parsed granted-structured

quoted_part_injective_example : (false ≡ false) × (false ≡ false → codes "a.b" ≡ codes "a.b")
quoted_part_injective_example = quoted_part_injective (codes "a.b") (codes "a.b") false false refl
