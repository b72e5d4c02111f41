-- ===== src/Native/Classify.antt =====
-- native.go: `classify`, `classifyCommand`.
use rewriter_go.Prelude.{
  ℕ, zero, suc, Bool, true, false, ◌&&◌, ◌||◌, List, [], ◌∷◌, eqb, leb, if◌then◌else◌,
}
use rewriter_go.Prelude.Text.{Bytes, codes, has_prefix}
use rewriter_go.Engine.Case.{to_upper}
use rewriter_go.Native.Response.{
  Result, ok, err, StatementType, type_unspecified, type_select, type_insert, type_create_table,
  type_drop_table, type_alter_table, type_create_database, type_drop_database, type_truncate_table,
  type_delete, type_use, type_grant, type_revoke, type_rename_table, type_exists_table,
  type_show_create_table, type_describe, type_show_databases, type_show_tables,
}
use rewriter_go.Native.Engine.{
  NodeKind, node_select, node_union, node_intersect, node_except, node_insert, node_create_table,
  node_drop_table, node_alter_table, node_create_db, node_drop_db, node_truncate, node_delete,
  node_command, node_other,
}

unfoldable pub two_byte_space : Bytes → Bool
two_byte_space (a ∷ b ∷ s) = eqb a 194 && (eqb b 133 || eqb b 160)
two_byte_space _ = false

unfoldable pub three_byte_space : Bytes → Bool
three_byte_space (a ∷ b ∷ c ∷ s) =
    (eqb a 225 && (eqb b 154 && eqb c 128))
    || ((eqb a 226
          && (eqb b 128 && ((leb 128 c && leb c 138) || (eqb c 168 || (eqb c 169 || eqb c 175)))))
        || ((eqb a 226 && (eqb b 129 && eqb c 159)) || (eqb a 227 && (eqb b 128 && eqb c 128))))
three_byte_space _ = false

-- How many bytes the white space has that a text starts with; 0 where it starts with none.
unfoldable pub space_length : Bytes → ℕ
space_length [] = 0
space_length (c ∷ s) =
    if eqb c b' ' || (leb 9 c && leb c 13)
    then 1
    else if two_byte_space (c ∷ s)
    then 2
    else if three_byte_space (c ∷ s)
    then 3
    else 0

-- Passes over `skip` bytes, and then over white space.
unfoldable pub skip_space : ℕ → Bytes → Bytes
skip_space skip [] = []
skip_space (suc skip) (c ∷ s) = skip_space skip s
skip_space zero (c ∷ s) = elim (space_length (c ∷ s)) [
  | zero ↦ c ∷ s
  | suc more ↦ skip_space more s
]

-- `strings.TrimSpace` at the start; what it takes away at the end reaches no test of a prefix.
unfoldable pub trim_space : Bytes → Bytes
trim_space s = skip_space 0 s

-- The cases of the switch in its order: a prefix and the type that it stands for.
unfoldable pub first_prefix : Bytes → List (Bytes × StatementType) → StatementType
first_prefix u [] = type_unspecified
first_prefix u ((p, t) ∷ cases) = if has_prefix u p then t else first_prefix u cases

abbrev pub command_prefixes : List (Bytes × StatementType)
command_prefixes =
    (codes "USE", type_use)
    ∷ (codes "GRANT", type_grant)
    ∷ (codes "REVOKE", type_revoke)
    ∷ (codes "RENAME", type_rename_table)
    ∷ (codes "EXISTS", type_exists_table)
    ∷ (codes "SHOW CREATE", type_show_create_table)
    ∷ (codes "DESC", type_describe)
    ∷ (codes "SHOW DATABASES", type_show_databases)
    ∷ (codes "SHOW SCHEMAS", type_show_databases)
    ∷ (codes "SHOW TABLES", type_show_tables)
    ∷ (codes "SHOW", type_show_tables)
    ∷ []

unfoldable pub classify_command : Bytes → StatementType
unfolding first_prefix
classify_command sql = first_prefix (to_upper (trim_space sql)) command_prefixes

unfoldable pub classify_kind : NodeKind → Bytes → StatementType
classify_kind node_select sql = type_select
classify_kind node_union sql = type_select
classify_kind node_intersect sql = type_select
classify_kind node_except sql = type_select
classify_kind node_insert sql = type_insert
classify_kind node_create_table sql = type_create_table
classify_kind node_drop_table sql = type_drop_table
classify_kind node_alter_table sql = type_alter_table
classify_kind node_create_db sql = type_create_database
classify_kind node_drop_db sql = type_drop_database
classify_kind node_truncate sql = type_truncate_table
classify_kind node_delete sql = type_delete
classify_kind node_command sql = classify_command sql
classify_kind (node_other _) sql = type_unspecified

-- `sql` is the text of a command node.
unfoldable pub classify : Result NodeKind → Bytes → StatementType
classify (err _) sql = type_unspecified
classify (ok kind) sql = classify_kind kind sql

unfoldable pub is_query_kind : Result NodeKind → Bool
is_query_kind (ok node_select) = true
is_query_kind (ok node_union) = true
is_query_kind (ok node_intersect) = true
is_query_kind (ok node_except) = true
is_query_kind _ = false
