-- ===== src/Examples/Errors.antt =====
-- Error texts that are handed out.
use rewriter_go.Prelude.{[], false, none, not, refl, some, true, ℕ, ◌&&◌, ◌||◌, ◌↔◌, ◌∷◌, ◌≡◌, ◌≢◌}
use rewriter_go.Examples.Requests.{differ, dynamic_sample, options_sample, static_sample, upstream}
use rewriter_go.Examples.Toy.{left_with, stated, toy}
use rewriter_go.Nameresolve.Contract.{
  storage_integrity_reserved_database, storage_integrity_surface_active,
}
use rewriter_go.Nameresolve.Hidden.{
  add_host, add_keys, add_literal, add_parts, add_upstream, add_where, append_remote_address,
  append_secret, candidates, database_part, dynamic_physical, dynamic_visible, hidden_identifiers,
  hidden_names, hidden_names_of, remote_targets, table_parts, upstream_literals, values,
  with_database_targets,
}
use rewriter_go.Nameresolve.Hidden.Identifiers.{
  hidden_identifiers_dynamic, hidden_identifiers_static, origin_names,
}
use rewriter_go.Nameresolve.Hidden.Literals.{IsHidden, hidden_names_of-IsHidden}
use rewriter_go.Nameresolve.Identifier.{
  alpha, digit, exact_parts, exact_qualified_table, simple_from, simple_identifier, split_qualified,
}
use rewriter_go.Nameresolve.Namespaces.{
  hosts, is_storage_integrity_physical_database, names_database, protected_database,
}
use rewriter_go.Nameresolve.Selecting.{
  find_active, mode_dynamic, mode_static, select_args, select_from, select_names,
}
use rewriter_go.Nameresolve.Validate.{
  check_key, check_mapping, check_protected, check_reserved, check_table, check_tables, first_error,
  metadata_database, validate_protected_databases, validate_storage_integrity,
}
use rewriter_go.Native.Classify.{classify, classify_kind, is_query_kind}
use rewriter_go.Native.Connection.{
  Connection, rewrite, rewrite_error_message, screened, service_rewrite_error_message,
  service_verdict,
}
use rewriter_go.Native.Connection.Hiding.{
  IsSafeText, has_failed, rewrite_error_message_safe, service_rewrite_error_message_safe,
}
use rewriter_go.Native.Finalize.{
  finalize, regenerated_verdict, reject_system_tables_on_success, success_verdict,
  system_tables_verdict,
}
use rewriter_go.Native.Gates.{scan_refs}
use rewriter_go.Native.Pipeline.{
  admit, admit_protected, answer, existence_of, finish, last_phase, parse, parsed, phase, phases,
  rewrite_statement, run_of, select_outcome,
}
use rewriter_go.Native.Response.{is_success, ok}
use rewriter_go.Native.Rewrite.{do_rewrite, rewrite_stripped}
use rewriter_go.Prelude.Dict.{Dict, any_value, has_key, keys, lookup}
use rewriter_go.Prelude.Sort.{add_key, sort_strings}
use rewriter_go.Prelude.Text.{
  Bytes, codes, contains, count_byte, cut_at, fields, fields_from, has_byte, has_prefix, has_suffix,
  less, trim, trim_left, ◌==◌,
}
use rewriter_go.Reverse.Boundary.{qualifies, substitute_boundary, substitute_from}
use rewriter_go.Reverse.Boundary.Replaced.{IsReplaced, substitute_boundary-IsReplaced}
use rewriter_go.Reverse.Withheld.{
  contains_identifier, index, mentions_hidden, search_from, withheld_message,
}
use rewriter_go.Reverse.Withheld.Mentions.{contains_identifier_iff, mentioned_at}
use rewriter_go.Reverse.Words.{after_ok, before_ok, is_word_byte, word_at}

sample-active : find_active options_sample ≡ mode_dynamic dynamic_sample
unfolding find_active select_from select_names select_args
sample-active = refl

stated-rewritten : do_rewrite toy stated options_sample ≡ ok left_with
unfolding do_rewrite rewrite_stripped rewrite_statement answer parse run_of parsed phases phase
    last_phase select_outcome finish finalize success_verdict reject_system_tables_on_success
    system_tables_verdict scan_refs regenerated_verdict classify classify_kind is_query_kind
    existence_of admit admit_protected find_active select_from select_names select_args
    storage_integrity_surface_active validate_storage_integrity check_tables check_reserved
    check_key check_table first_error exact_qualified_table exact_parts simple_identifier
    simple_from alpha digit count_byte split_qualified cut_at lookup keys sort_strings ◌==◌
    validate_protected_databases check_protected check_mapping metadata_database less
stated-rewritten = refl

abbrev message : Bytes
message = codes "Unknown table hg_meta.t, at 'secret'"

-- The inversion that changes nothing.
abbrev same_text : Bytes → Bytes → Bytes → Dict Bytes → Dict Bytes → Bytes
same_text message sql rewritten tables databases = message

abbrev connection : Connection
connection = record { options = some (λ account. options_sample); last = none }

message-nonempty : message ≢ []
unfolding ◌==◌
message-nonempty = differ message [] refl

stated-nonempty : stated ≢ []
unfolding ◌==◌
stated-nonempty = differ stated [] refl

rewrite_error_message_safe_example :
    IsSafeText dynamic_sample (
      rewrite_error_message toy same_text
        ((rewrite toy same_text connection stated (codes "a")).0)
        message)
    × (is_success left_with.code ≡ false
        → rewrite_error_message toy same_text
            ((rewrite toy same_text connection stated (codes "a")).0)
            message
          ≡ withheld_message)
rewrite_error_message_safe_example =
    rewrite_error_message_safe toy same_text connection stated (codes "a") message left_with
      dynamic_sample sample-active stated-rewritten message-nonempty

service_rewrite_error_message_safe_example :
    IsSafeText dynamic_sample (
      (service_rewrite_error_message toy same_text message stated
        options_sample).error_after_rewrite)
    × (has_failed (do_rewrite toy stated options_sample) ≡ true
        → (service_rewrite_error_message toy same_text message stated
            options_sample).error_after_rewrite
          ≡ withheld_message)
service_rewrite_error_message_safe_example =
    service_rewrite_error_message_safe toy same_text message stated options_sample dynamic_sample
      sample-active message-nonempty stated-nonempty

contains_identifier_iff_example :
    (contains_identifier message (codes "hg_meta") ≡ true)
    ↔ ((codes "hg_meta" ≢ []) × ((st : ℕ) × (mentioned_at message (codes "hg_meta") st ≡ true)))
contains_identifier_iff_example = contains_identifier_iff message (codes "hg_meta")

-- Of the two matches of `db` the one inside a word stays.
kept-word :
    substitute_boundary (codes "db.t of dbx") ((0, 2) ∷ (8, 10) ∷ []) (codes "logical")
    ≡ codes "logical.t of dbx"
unfolding substitute_boundary substitute_from qualifies before_ok after_ok word_at is_word_byte
kept-word = refl

substitute_boundary-IsReplaced_example :
    IsReplaced
      (codes "db.t of dbx")
      (codes "logical")
      0
      ((0, 2) ∷ (8, 10) ∷ [])
      (substitute_boundary (codes "db.t of dbx") ((0, 2) ∷ (8, 10) ∷ []) (codes "logical"))
substitute_boundary-IsReplaced_example =
    substitute_boundary-IsReplaced (codes "db.t of dbx") (codes "logical") ((0, 2) ∷ (8, 10) ∷ [])

hidden_identifiers_dynamic_example :
    contains (codes "hg_meta") ((hidden_names_of (mode_dynamic dynamic_sample)).0) ≡ (
      protected_database (codes "hg_meta") dynamic_sample
      && not (
          dynamic_sample.upstream_logical_database_in_context == codes "hg_meta"
          || has_key (codes "hg_meta") dynamic_sample.database_map))
hidden_identifiers_dynamic_example = hidden_identifiers_dynamic (codes "hg_meta") dynamic_sample

hidden_identifiers_static_example :
    contains (codes "phys2") ((hidden_names_of (mode_static static_sample)).0) ≡ (
      not (codes "phys2" == [])
      && ((contains (codes "phys2") (with_database_targets static_sample.table_with_database_map)
            || contains (codes "phys2") (remote_targets static_sample.remote_table_map))
          && not (
              origin_names (codes "phys2") (keys static_sample.table_map)
              || (origin_names (codes "phys2") (keys static_sample.table_with_database_map)
                  || origin_names (codes "phys2") (keys static_sample.remote_table_map)))))
hidden_identifiers_static_example = hidden_identifiers_static (codes "phys2") static_sample

upstream-found : lookup (codes "r") dynamic_sample.remote_upstreams ≡ some upstream
unfolding lookup ◌==◌
upstream-found = refl

hidden_names_of-IsHidden_example :
    IsHidden upstream.addr upstream.password ((hidden_names_of (mode_dynamic dynamic_sample)).1)
hidden_names_of-IsHidden_example =
    hidden_names_of-IsHidden dynamic_sample (codes "r") upstream upstream-found

-- The message names a hidden database: the service withholds it.
service-withholds :
    (service_rewrite_error_message toy same_text message stated options_sample).error_after_rewrite
    ≡ withheld_message
unfolding do_rewrite rewrite_stripped rewrite_statement answer parse run_of parsed phases phase
    last_phase select_outcome finish finalize success_verdict reject_system_tables_on_success
    system_tables_verdict scan_refs regenerated_verdict classify classify_kind is_query_kind
    existence_of admit admit_protected find_active select_from select_names select_args
    storage_integrity_surface_active validate_storage_integrity check_tables check_reserved
    check_key check_table first_error exact_qualified_table exact_parts simple_identifier
    simple_from alpha digit count_byte split_qualified cut_at lookup keys sort_strings ◌==◌
    validate_protected_databases check_protected check_mapping metadata_database less
    service_rewrite_error_message service_verdict screened hidden_names hidden_names_of
    mentions_hidden contains_identifier search_from index has_prefix is_word_byte word_at before_ok
    after_ok withheld_message hidden_identifiers dynamic_physical dynamic_visible candidates
    add_where table_parts values database_part upstream_literals add_upstream append_remote_address
    append_secret add_literal add_parts add_host add_keys fields fields_from trim trim_left has_byte
    has_suffix contains protected_database any_value add_key has_key
    is_storage_integrity_physical_database hosts names_database storage_integrity_reserved_database
service-withholds = refl
