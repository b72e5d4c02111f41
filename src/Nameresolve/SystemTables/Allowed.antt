-- ===== src/Nameresolve/SystemTables/Allowed.antt =====
-- The allowlist that is shown is the allowlist that is checked.
use rewriter_go.Prelude.{◌≡◌, refl}
use rewriter_go.Prelude.Text.{Bytes, ◌==◌, contains}
use rewriter_go.Prelude.Sort.{
  Ascending, Distinct, distinct, Distinct-of_test, contains-sort_strings, sort_strings-Ascending,
}
use rewriter_go.Nameresolve.SystemTables.{
  system_table_allowlist_entries, system_table_allowed, system_table_allowlist,
}

entries-Distinct : Distinct system_table_allowlist_entries
unfolding system_table_allowlist_entries contains ◌==◌ distinct
entries-Distinct = Distinct-of_test system_table_allowlist_entries refl

-- The sorted list is strictly ascending, and it holds exactly the tables that the check allows.
pub system_table_allowlist_lem :
    Ascending system_table_allowlist
    × ((table : Bytes) → contains table system_table_allowlist ≡ system_table_allowed table)
unfolding system_table_allowlist system_table_allowed
system_table_allowlist_lem = (
  sort_strings-Ascending system_table_allowlist_entries entries-Distinct,
  λ table. contains-sort_strings table system_table_allowlist_entries,
)
