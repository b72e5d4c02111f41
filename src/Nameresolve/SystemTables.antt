-- ===== src/Nameresolve/SystemTables.antt =====
-- systemtables.go: the closed list of system tables that caller SQL may name.
pub mod Allowed
use rewriter_go.Prelude.{Bool, List, [], ◌∷◌}
use rewriter_go.Prelude.Text.{Bytes, codes, contains}
use rewriter_go.Prelude.Sort.{sort_strings}

unfoldable pub system_table_allowlist_entries : List Bytes
system_table_allowlist_entries =
    codes "aggregate_function_combinators"
    ∷ codes "azure_queue_settings"
    ∷ codes "build_options"
    ∷ codes "codecs"
    ∷ codes "collations"
    ∷ codes "contributors"
    ∷ codes "dashboards"
    ∷ codes "data_type_families"
    ∷ codes "database_engines"
    ∷ codes "formats"
    ∷ codes "functions"
    ∷ codes "jemalloc_bins"
    ∷ codes "jemalloc_stats"
    ∷ codes "keywords"
    ∷ codes "licenses"
    ∷ codes "merge_tree_settings"
    ∷ codes "numbers"
    ∷ codes "numbers_mt"
    ∷ codes "one"
    ∷ codes "primes"
    ∷ codes "privileges"
    ∷ codes "replicated_merge_tree_settings"
    ∷ codes "s3_queue_settings"
    ∷ codes "settings"
    ∷ codes "settings_changes"
    ∷ codes "table_engines"
    ∷ codes "table_functions"
    ∷ codes "time_zones"
    ∷ codes "tokenizers"
    ∷ codes "unicode"
    ∷ codes "warnings"
    ∷ codes "zeros"
    ∷ codes "zeros_mt"
    ∷ codes "clusters"
    ∷ codes "tables"
    ∷ codes "columns"
    ∷ codes "data_skipping_indices"
    ∷ codes "projections"
    ∷ codes "parts"
    ∷ codes "parts_columns"
    ∷ codes "projection_parts"
    ∷ codes "projection_parts_columns"
    ∷ codes "databases"
    ∷ codes "completions"
    ∷ codes "mutations"
    ∷ []

unfoldable pub system_table_allowed : Bytes → Bool
system_table_allowed table = contains table system_table_allowlist_entries

unfoldable pub system_table_allowlist : List Bytes
system_table_allowlist = sort_strings system_table_allowlist_entries
