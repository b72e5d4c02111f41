-- ===== src/Examples/Writes.antt =====
-- Targets of an ALTER TABLE.
use rewriter_go.Prelude.{List, [], none, refl, some, ◌∷◌, ◌≡◌}
use rewriter_go.Examples.Requests.{dynamic_sample}
use rewriter_go.Examples.Toy.{answered}
use rewriter_go.Handlers.Targets.{
  Decision, action_rename, blocked_key, decide_slots, decide_status, decide_write_target,
  record_rewrite,
}
use rewriter_go.Handlers.Targets.Accepted.{AreAccepted, decide_slots-AreAccepted}
use rewriter_go.Nameresolve.Contract.{storage_integrity_reserved_database}
use rewriter_go.Nameresolve.Identifier.{
  alpha, digit, exact_parts, exact_qualified_table, qualify, simple_from, simple_identifier,
  split_qualified,
}
use rewriter_go.Nameresolve.Integrity.{
  context_database, entry_of, first_host, lookup_storage_integrity,
  lookup_storage_integrity_physical,
}
use rewriter_go.Nameresolve.Namespaces.{
  hosts, is_storage_integrity_physical_database, names_database, protected_database,
}
use rewriter_go.Nameresolve.Resolve.{
  apply_dynamic, build_dynamic_table_name, delimiter, is_logical_remote_mapped, known_physical,
  remote_outcome, resolve_physical_database, route, write_extras,
}
use rewriter_go.Nameresolve.Selecting.{
  accessed_logical, mode_dynamic, resolve, resolve_accessed, storage_integrity_drop_contract,
}
use rewriter_go.Native.Gates.{record_accessed_write}
use rewriter_go.Prelude.Dict.{any_value, has_key, lookup}
use rewriter_go.Prelude.Text.{Bytes, codes, contains, count_byte, cut_at, ◌==◌}

abbrev altered : List (Bytes × Bytes)
altered = (codes "db1", codes "u") ∷ ([], codes "v") ∷ []

abbrev renamed : List Decision
renamed =
    action_rename (codes "phys1") (codes "db1_v2.u")
    ∷ action_rename (codes "phys1") (codes "db1_v2.v")
    ∷ []

altered-decided :
    decide_slots (codes "alter_table") (mode_dynamic dynamic_sample) altered answered ≡ (
      some renamed,
      (decide_slots (codes "alter_table") (mode_dynamic dynamic_sample) altered answered).1,
    )
unfolding apply_dynamic route remote_outcome context_database protected_database any_value contains
    is_storage_integrity_physical_database hosts names_database exact_qualified_table exact_parts
    simple_identifier simple_from alpha digit count_byte split_qualified cut_at
    storage_integrity_reserved_database resolve_physical_database known_physical lookup has_key ◌==◌
    build_dynamic_table_name write_extras delimiter is_logical_remote_mapped decide_slots
    decide_write_target decide_status blocked_key storage_integrity_drop_contract
    lookup_storage_integrity entry_of qualify record_accessed_write resolve_accessed resolve
    lookup_storage_integrity_physical accessed_logical first_host record_rewrite
altered-decided = refl

-- A storage-integrity table stops the loop, and the targets behind it are not decided.
altered-refused :
    (decide_slots
      (codes "alter_table")
      (mode_dynamic dynamic_sample)
      ((codes "db1", codes "t") ∷ altered)
      answered).0
    ≡ none
unfolding apply_dynamic route remote_outcome context_database protected_database any_value contains
    is_storage_integrity_physical_database hosts names_database exact_qualified_table exact_parts
    simple_identifier simple_from alpha digit count_byte split_qualified cut_at
    storage_integrity_reserved_database resolve_physical_database known_physical lookup has_key ◌==◌
    build_dynamic_table_name write_extras delimiter is_logical_remote_mapped decide_slots
    decide_write_target decide_status blocked_key storage_integrity_drop_contract
    lookup_storage_integrity entry_of qualify record_accessed_write resolve_accessed resolve
    lookup_storage_integrity_physical accessed_logical first_host record_rewrite
altered-refused = refl

decide_slots-AreAccepted_example :
    AreAccepted (codes "alter_table") dynamic_sample altered renamed
    × ((decide_slots (codes "alter_table") (mode_dynamic dynamic_sample) altered answered).1.code
        ≡ answered.code)
decide_slots-AreAccepted_example =
    decide_slots-AreAccepted (codes "alter_table") dynamic_sample altered answered
      (decide_slots (codes "alter_table") (mode_dynamic dynamic_sample) altered answered).1 renamed
      altered-decided
