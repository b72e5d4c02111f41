-- ===== src/Examples/Policy.antt =====
-- Routing, validation and the policy in force.
use rewriter_go.Prelude.{
  [], false, is_some, none, or_default, refl, some, sym, true, ◌↔◌, ◌∙◌, ◌≡◌, ◌≢◌, ◌⊎◌,
}
use rewriter_go.Examples.Requests.{differ, dynamic_sample, options_sample, surface, surface_table}
use rewriter_go.Nameresolve.Contract.{storage_integrity_reserved_database}
use rewriter_go.Nameresolve.Identifier.{
  alpha, digit, exact_parts, exact_qualified_table, simple_from, simple_identifier, split_qualified,
}
use rewriter_go.Nameresolve.Integrity.{context_database}
use rewriter_go.Nameresolve.Messages.{protected_database_reject_message}
use rewriter_go.Nameresolve.Namespaces.{
  hosts, is_storage_integrity_physical_database, names_database, protected_database,
  storage_integrity_physical_databases,
}
use rewriter_go.Nameresolve.Namespaces.Listing.{contains-storage_integrity_physical_databases}
use rewriter_go.Nameresolve.Request.{SiTable}
use rewriter_go.Nameresolve.Resolve.{
  apply_dynamic, build_dynamic_table_name, delimiter, invalid, is_logical_remote_mapped,
  known_physical, remote_outcome, resolve_physical_database, route, status_remote, status_rewrite,
  write_extras,
}
use rewriter_go.Nameresolve.Resolve.Routing.{
  apply_dynamic_accepts, apply_dynamic_not_twice, apply_dynamic_routes, is_invalid, is_remote,
  resolve_physical_database_protected, upstream_known,
}
use rewriter_go.Nameresolve.Selecting.{
  find_active, mode_dynamic, mode_none, select_args, select_from, select_names,
}
use rewriter_go.Nameresolve.Selecting.Policy.{find_active-last, last_policy}
use rewriter_go.Nameresolve.Validate.{
  check_key, check_mapping, check_protected, check_reserved, check_table, check_tables, first_error,
  metadata_database, validate_protected_databases, validate_storage_integrity,
}
use rewriter_go.Nameresolve.Validate.Consequences.{
  IsProtectedName, validate_storage_integrity_protects,
}
use rewriter_go.Nameresolve.Validate.Verdict.{
  integrity_ok, is_none, validate_storage_integrity_accepts,
}
use rewriter_go.Prelude.Dict.{any_value, has_key, keys, lookup}
use rewriter_go.Prelude.Sort.{sort_strings}
use rewriter_go.Prelude.Text.{codes, contains, count_byte, cut_at, less, ◌==◌}

-- db1.t of the sample is accepted and goes to the database phys1.
t-accepted : is_invalid (apply_dynamic (codes "db1") (codes "t") dynamic_sample).status ≡ false
unfolding apply_dynamic route remote_outcome context_database protected_database any_value contains
    is_storage_integrity_physical_database hosts names_database exact_qualified_table exact_parts
    simple_identifier simple_from alpha digit count_byte split_qualified cut_at
    storage_integrity_reserved_database resolve_physical_database known_physical lookup has_key ◌==◌
    build_dynamic_table_name write_extras delimiter is_logical_remote_mapped
t-accepted = refl

t-physical : (apply_dynamic (codes "db1") (codes "t") dynamic_sample).physical_db ≡ codes "phys1"
unfolding apply_dynamic route remote_outcome context_database protected_database any_value contains
    is_storage_integrity_physical_database hosts names_database exact_qualified_table exact_parts
    simple_identifier simple_from alpha digit count_byte split_qualified cut_at
    storage_integrity_reserved_database resolve_physical_database known_physical lookup has_key ◌==◌
    build_dynamic_table_name write_extras delimiter is_logical_remote_mapped
t-physical = refl

t-logical : (apply_dynamic (codes "db1") (codes "t") dynamic_sample).logical_db ≡ codes "db1"
unfolding apply_dynamic route remote_outcome context_database protected_database any_value contains
    is_storage_integrity_physical_database hosts names_database exact_qualified_table exact_parts
    simple_identifier simple_from alpha digit count_byte split_qualified cut_at
    storage_integrity_reserved_database resolve_physical_database known_physical lookup has_key ◌==◌
    build_dynamic_table_name write_extras delimiter is_logical_remote_mapped
t-logical = refl

phys1-nonempty : codes "phys1" ≢ []
unfolding ◌==◌
phys1-nonempty = differ (codes "phys1") [] refl

phys1-db1 : codes "phys1" ≢ codes "db1"
unfolding ◌==◌
phys1-db1 = differ (codes "phys1") (codes "db1") refl

apply_dynamic_not_twice_example :
    apply_dynamic
      (apply_dynamic (codes "db1") (codes "t") dynamic_sample).physical_db
      (codes "u")
      dynamic_sample
    ≡ invalid (
        protected_database_reject_message
          (apply_dynamic (codes "db1") (codes "t") dynamic_sample).physical_db)
apply_dynamic_not_twice_example =
    apply_dynamic_not_twice (codes "db1") (codes "t") (codes "u") dynamic_sample t-accepted
      (λ e. phys1-nonempty (sym t-physical ∙ e)) (λ e. phys1-db1 ((sym t-physical ∙ e) ∙ t-logical))

apply_dynamic_accepts_example :
    (is_invalid (apply_dynamic (codes "db1") (codes "t") dynamic_sample).status ≡ false) ↔ (
      (context_database (codes "db1") dynamic_sample == [] ≡ false)
      × (protected_database (context_database (codes "db1") dynamic_sample) dynamic_sample ≡ false)
      × (is_some (
            resolve_physical_database
              (context_database (codes "db1") dynamic_sample)
              dynamic_sample)
          ≡ true)
      × (upstream_known (context_database (codes "db1") dynamic_sample) dynamic_sample ≡ true))
apply_dynamic_accepts_example = apply_dynamic_accepts (codes "db1") (codes "t") dynamic_sample

apply_dynamic_routes_example :
    (apply_dynamic (codes "db1") (codes "t") dynamic_sample).logical_db
      ≡ context_database (codes "db1") dynamic_sample
    × resolve_physical_database (context_database (codes "db1") dynamic_sample) dynamic_sample
      ≡ some (apply_dynamic (codes "db1") (codes "t") dynamic_sample).physical_db
    × (apply_dynamic (codes "db1") (codes "t") dynamic_sample).new_table
      ≡ build_dynamic_table_name
          (context_database (codes "db1") dynamic_sample)
          (codes "t")
          dynamic_sample
    × is_remote (apply_dynamic (codes "db1") (codes "t") dynamic_sample).status
      ≡ is_logical_remote_mapped (context_database (codes "db1") dynamic_sample) dynamic_sample
    × (((apply_dynamic (codes "db1") (codes "t") dynamic_sample).status ≡ status_rewrite)
        ⊎ ((apply_dynamic (codes "db1") (codes "t") dynamic_sample).status ≡ status_remote))
apply_dynamic_routes_example =
    apply_dynamic_routes (codes "db1") (codes "t") dynamic_sample t-accepted

db1-resolves : resolve_physical_database (codes "db1") dynamic_sample ≡ some (codes "phys1")
unfolding apply_dynamic route remote_outcome context_database protected_database any_value contains
    is_storage_integrity_physical_database hosts names_database exact_qualified_table exact_parts
    simple_identifier simple_from alpha digit count_byte split_qualified cut_at
    storage_integrity_reserved_database resolve_physical_database known_physical lookup has_key ◌==◌
    build_dynamic_table_name write_extras delimiter is_logical_remote_mapped
db1-resolves = refl

resolve_physical_database_protected_example :
    (protected_database (codes "phys1") dynamic_sample ≡ true)
    ⊎ ((codes "phys1" ≡ codes "db1")
        × (protected_database (codes "db1") dynamic_sample ≡ false)
        × (contains (codes "db1") dynamic_sample.known_physical_databases ≡ true)
        × (lookup (codes "db1") dynamic_sample.database_map ≡ none))
resolve_physical_database_protected_example =
    resolve_physical_database_protected (codes "db1") dynamic_sample (codes "phys1") phys1-nonempty
      db1-resolves

sample-valid : validate_storage_integrity dynamic_sample ≡ none
unfolding validate_storage_integrity check_tables check_reserved check_key check_table first_error
    exact_qualified_table exact_parts simple_identifier simple_from alpha digit count_byte
    split_qualified cut_at lookup keys sort_strings ◌==◌ validate_protected_databases
    check_protected check_mapping metadata_database less
sample-valid = refl

sample-protected-valid : validate_protected_databases dynamic_sample ≡ none
unfolding validate_storage_integrity check_tables check_reserved check_key check_table first_error
    exact_qualified_table exact_parts simple_identifier simple_from alpha digit count_byte
    split_qualified cut_at lookup keys sort_strings ◌==◌ validate_protected_databases
    check_protected check_mapping metadata_database less
sample-protected-valid = refl

surface-entry : lookup (codes "db1.t") surface.tables ≡ some (some surface_table)
unfolding lookup ◌==◌
surface-entry = refl

validate_storage_integrity_protects_example :
    (tbl : SiTable) × (some surface_table ≡ some tbl)
    × IsProtectedName dynamic_sample tbl.safe_table
    × IsProtectedName dynamic_sample tbl.unsafe_table
validate_storage_integrity_protects_example =
    validate_storage_integrity_protects dynamic_sample surface (codes "db1.t") (some surface_table)
      sample-valid refl surface-entry

validate_storage_integrity_accepts_example :
    is_none (validate_storage_integrity dynamic_sample) ≡ integrity_ok surface
validate_storage_integrity_accepts_example = validate_storage_integrity_accepts dynamic_sample

sample-active : find_active options_sample ≡ mode_dynamic dynamic_sample
unfolding find_active select_from select_names select_args
sample-active = refl

find_active-last_example :
    find_active options_sample ≡ or_default (last_policy options_sample) mode_none
find_active-last_example = find_active-last options_sample

contains-storage_integrity_physical_databases_example :
    contains (codes "hg_meta") (storage_integrity_physical_databases dynamic_sample)
    ≡ is_storage_integrity_physical_database (codes "hg_meta") dynamic_sample
contains-storage_integrity_physical_databases_example =
    contains-storage_integrity_physical_databases (codes "hg_meta") dynamic_sample
