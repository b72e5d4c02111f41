-- ===== src/Engine/Settings.antt =====
-- settings.go of internal/engine: the settings that dynamic mode refuses.
pub mod Assignments
pub mod Scans
use rewriter_go.Prelude.{Bool, List, [], not, ◌&&◌, ◌||◌, ◌∷◌}
use rewriter_go.Engine.Case.{to_lower}
use rewriter_go.Prelude.Text.{Bytes, codes, contains, has_suffix}

-- SettingAssignment
pub record SettingAssignment : Type 0 where
  pub name : Bytes
  pub plain_value : Bool
  pub true_literal : Bool
  pub escaped_name : Bool

unfoldable pub sql_bearing_settings : List Bytes
sql_bearing_settings =
    codes "additional_table_filters"
    ∷ codes "additional_result_filter"
    ∷ codes "parallel_replicas_custom_key"
    ∷ codes "dialect"
    ∷ codes "polyglot_dialect"
    ∷ codes "allow_experimental_polyglot_dialect"
    ∷ codes "allow_experimental_prql_dialect"
    ∷ codes "allow_experimental_kusto_dialect"
    ∷ codes "enable_global_with_statement"
    ∷ codes "compatibility"
    ∷ codes "implicit_table_at_top_level"
    ∷ codes "promql_table"
    ∷ codes "promql_database"
    ∷ codes "legacy_column_name_of_tuple_literal"
    ∷ codes "profile"
    ∷ []

unfoldable pub analyzer_settings : List Bytes
analyzer_settings = codes "enable_analyzer" ∷ codes "allow_experimental_analyzer" ∷ []

unfoldable pub analyzer_setting : Bytes → Bool
analyzer_setting name = contains (to_lower name) analyzer_settings

unfoldable pub true_literal_spelling : Bytes → Bool
true_literal_spelling source =
    contains (to_lower source) (codes "1" ∷ codes "true" ∷ codes "'1'" ∷ codes "'true'" ∷ [])

unfoldable pub sql_bearing_setting : Bytes → Bool
sql_bearing_setting name =
    let lower_name = to_lower name in
    contains lower_name sql_bearing_settings || has_suffix lower_name (codes "_dialect")

unfoldable pub setting_refused : SettingAssignment → Bool
setting_refused a = sql_bearing_setting a.name || (analyzer_setting a.name && not a.true_literal)
