-- ===== src/Handlers/Targets.antt =====
-- handlers/writes.go: the strict decision of write targets, and the loop over the targets of one
-- statement; handlers/select.go: `recordRewrite`.
pub mod Accepted
use rewriter_go.Prelude.{List, Option, [], if◌then◌else◌, none, not, some, ◌&&◌, ◌++◌, ◌∷◌}
use rewriter_go.Nameresolve.Identifier.{qualify}
use rewriter_go.Nameresolve.Integrity.{lookup_storage_integrity}
use rewriter_go.Nameresolve.Messages.{storage_integrity_write_reject_message}
use rewriter_go.Nameresolve.Resolve.{
  Outcome, Status, status_invalid, status_passthrough, status_remote, status_remote_unsupported,
  status_rewrite,
}
use rewriter_go.Nameresolve.Selecting.{
  Selection, mode_dynamic, resolve, storage_integrity_drop_contract,
}
use rewriter_go.Native.Gates.{record_accessed_write}
use rewriter_go.Native.Response.{
  Response, invalid_rewrite_request, is_success, unsupported_statement,
}
use rewriter_go.Prelude.Dict.{Dict}
use rewriter_go.Prelude.Text.{Bytes, codes, ◌==◌}

-- engine.TableDecision, as far as a write target needs it.
pub data Decision : Type 0 where
  action_skip : Decision
  action_rename : Bytes → Bytes → Decision

unfoldable pub reject_unsupported : Response → Bytes → Response
reject_unsupported resp msg =
    if is_success resp.code
    then record resp { code = unsupported_statement; message = msg }
    else resp

unfoldable pub reject_invalid : Response → Bytes → Response
reject_invalid resp msg =
    if is_success resp.code
    then record resp { code = invalid_rewrite_request; message = msg }
    else resp

unfoldable pub record_rewrite : Dict Bytes → Bytes → Bytes → Bytes → Bytes → Dict Bytes
record_rewrite rewrites db table new_db new_table =
    let from = qualify db table in
    let to = qualify new_db new_table in if from == to then rewrites else (from, to) ∷ rewrites

-- The storage-integrity table that a target of this kind may not be.
unfoldable pub blocked_key : Bytes → Bytes → Bytes → Selection → Option Bytes
blocked_key db table kind (mode_dynamic a) =
    if not (kind == codes "insert")
      && not (kind == codes "drop_table" && storage_integrity_drop_contract (mode_dynamic a))
    then elim (lookup_storage_integrity db table a) [ none ↦ none | some (_, key) ↦ some key ]
    else none
blocked_key db table kind sel = none

abbrev pub remote_target_message : Bytes → Bytes
remote_target_message kind =
    kind
    ++ codes
        " target maps to a remote upstream; remote() can only appear as a SELECT-side table function"

-- The switch over the status; `none` is ok = false.
unfoldable pub decide_status :
    Status → Outcome → Bytes → Bytes → Bytes → Response → Option Decision × Response
decide_status status_rewrite o db table kind resp = (
  some (action_rename o.physical_db o.new_table),
  record resp {
    table_rewrites = record_rewrite resp.table_rewrites db table o.physical_db o.new_table;
  },
)
decide_status status_remote o db table kind resp =
    (none, reject_unsupported resp (remote_target_message kind))
decide_status status_remote_unsupported o db table kind resp =
    (none, reject_unsupported resp (remote_target_message kind))
decide_status status_invalid o db table kind resp = (none, reject_invalid resp o.reject_reason)
decide_status status_passthrough o db table kind resp = (some action_skip, resp)

unfoldable pub decide_write_target :
    Bytes → Bytes → Bytes → Selection → Response → Option Decision × Response
decide_write_target db table kind sel resp =
    let recorded = record_accessed_write resp db table sel in
    let o = resolve db table sel in
    elim (blocked_key db table kind sel) [
      | some key ↦ (none, reject_unsupported recorded (storage_integrity_write_reject_message key))
      | none ↦ decide_status o.status o db table kind recorded
    ]

-- The loop of `applyStructuredSlots` over the targets: it stops at the first that is refused.
unfoldable pub decide_slots :
    Bytes → Selection → List (Bytes × Bytes) → Response → Option (List Decision) × Response
decide_slots kind sel [] resp = (some [], resp)
decide_slots kind sel ((db, table) ∷ slots) resp =
    let (decision, after) = decide_write_target db table kind sel resp in
    let (rest, last) = decide_slots kind sel slots after in
    elim decision [
      | none ↦ (none, after)
      | some d ↦ elim rest [ none ↦ (none, last) | some ds ↦ (some (d ∷ ds), last) ]
    ]
