-- ===== src/Handlers/Preflight/Refusals/Parts.antt =====
-- What a response looks like that a part of the preflight refuses with.
use rewriter_go.Prelude.{
  Bool-cases, List, Option, [], any, ap, arith, false, inl, inr, none, refl, some, true, ◌∷◌, ◌≡◌,
}
use rewriter_go.Handlers.Accessed.{
  echoing, fresh, new_write_resp, record_accessed_database, with_code,
}
use rewriter_go.Handlers.Carriers.{engine_refusal, function_refusal, setting_refusal, storage_check}
use rewriter_go.Handlers.Check.{Check, echoed}
use rewriter_go.Handlers.Check.Laws.{
  Refuses, Refuses-first, Refuses-then, by_error, by_none, by_refusal,
}
use rewriter_go.Handlers.Preflight.{protected_refusal, record_targets}
use rewriter_go.Handlers.Readers.{StorageEngine}
use rewriter_go.Handlers.Targets.{reject_invalid, reject_unsupported}
use rewriter_go.Nameresolve.Messages.{
  protected_database_reject_message, system_table_refused_message,
}
use rewriter_go.Nameresolve.Request.{DynamicArgs}
use rewriter_go.Nameresolve.Selecting.{Selection, mode_dynamic}
use rewriter_go.Native.Engine.{TableTarget}
use rewriter_go.Native.Gates.{
  drop_unqualified, is_record_of, record_accessed_write, record_accessed_write_unique,
  reject_system_table, without_rewrites,
}
use rewriter_go.Native.Response.{Response, is_success, type_unspecified, unsupported_statement}
use rewriter_go.Prelude.Text.{Bytes, codes, ◌==◌}

-- A refusal: no Success, and no statement type.
abbrev pub IsReject : Response → Type 0
IsReject resp = (is_success resp.code ≡ false) × (resp.statement_type ≡ type_unspecified)

-- What leaves the preflight: a refusal that hands the statement back as it came.
abbrev pub IsRefusal : Bytes → Response → Type 0
IsRefusal sql resp = IsReject resp × (resp.sql_after_rewrite ≡ sql)

-- The accessed tables of a response leave its code, its type and its text as they are.
abbrev pub IsFresh : Response → Type 0
IsFresh resp = (is_success resp.code ≡ true) × (resp.statement_type ≡ type_unspecified)

pub record_accessed_write-IsFresh :
    (resp : Response) (db table : Bytes) (sel : Selection)
    → IsFresh resp
    → IsFresh (record_accessed_write resp db table sel)
unfolding record_accessed_write
record_accessed_write-IsFresh resp db table sel h = elim (Bool-cases (table == [])) [
  | inl e ↦ ground arith
  | inr e ↦ ground arith
]

pub record_targets-IsFresh :
    (a : DynamicArgs) (targets : List TableTarget) (resp : Response)
    → IsFresh resp
    → IsFresh (record_targets a targets resp)
unfolding record_targets
record_targets-IsFresh a [] resp h = h
record_targets-IsFresh a (t ∷ targets) resp h =
    record_targets-IsFresh a targets (record_accessed_write resp t.db t.table (mode_dynamic a))
      (record_accessed_write-IsFresh resp t.db t.table (mode_dynamic a) h)

pub fresh-IsFresh : IsFresh fresh
unfolding new_write_resp
fresh-IsFresh = (refl, refl)

pub unsupported-IsRefusal :
    (sql m : Bytes) (resp : Response)
    → IsFresh resp
    → IsRefusal sql (echoing sql (reject_unsupported resp m))
unfolding reject_unsupported
unsupported-IsRefusal sql m resp h = ground arith

pub invalid-IsRefusal :
    (sql m : Bytes) (resp : Response)
    → IsFresh resp
    → IsRefusal sql (echoing sql (reject_invalid resp m))
unfolding reject_invalid
invalid-IsRefusal sql m resp h = ground arith

pub protected-IsRefusal :
    (sql : Bytes) (a : DynamicArgs) (db : Bytes) → IsRefusal sql (protected_refusal sql a db)
unfolding protected_refusal record_accessed_database new_write_resp
protected-IsRefusal sql a db =
    invalid-IsRefusal sql (protected_database_reject_message db)
      (record_accessed_database fresh db a) (refl, refl)

-- A check that writes a refusal to the response it is given, before the statement is echoed.
pub Refuses-echoed :
    (sql : Bytes) {c : Check} → Refuses IsReject c → Refuses (IsRefusal sql) (echoed sql c)
unfolding echoed
Refuses-echoed sql by_error = by_error
Refuses-echoed sql by_none = by_none
Refuses-echoed sql (by_refusal p) = by_refusal (p, refl)

pub with_code-IsReject :
    (resp : Response) (m : Bytes)
    → resp.statement_type ≡ type_unspecified
    → IsReject (with_code resp unsupported_statement m)
with_code-IsReject resp m h = (refl, h)

pub function_refusal-IsReject :
    (name : Bytes) (resp : Response) → function_refusal fresh name ≡ some resp → IsReject resp
unfolding function_refusal new_write_resp
function_refusal-IsReject name resp h = ground arith

pub engine_refusal-IsReject :
    (eng : StorageEngine) (resp : Response) → engine_refusal fresh eng ≡ some resp → IsReject resp
unfolding engine_refusal new_write_resp
engine_refusal-IsReject eng resp h = ground arith

pub setting_refusal-IsReject :
    (s : Bytes) (resp : Response) → setting_refusal fresh s ≡ some resp → IsReject resp
unfolding setting_refusal new_write_resp
setting_refusal-IsReject s resp h = ground arith

pub storage_check-IsReject :
    (storage : Option (List StorageEngine × List Bytes))
    → Refuses IsReject (storage_check fresh storage)
unfolding storage_check
storage_check-IsReject none = by_none
storage_check-IsReject (some (engines, settings)) =
    Refuses-then (Refuses-first (engine_refusal fresh) engines engine_refusal-IsReject)
      (Refuses-first (setting_refusal fresh) settings setting_refusal-IsReject)

pub record_accessed_write_same :
    (resp : Response) (db table : Bytes) (sel : Selection)
    → ((record_accessed_write resp db table sel).code ≡ resp.code)
      × ((record_accessed_write resp db table sel).statement_type ≡ resp.statement_type)
unfolding record_accessed_write
record_accessed_write_same resp db table sel = elim (Bool-cases (table == [])) [
  | inl e ↦ ground arith
  | inr e ↦ ground arith
]

pub record_accessed_write_unique_same :
    (resp : Response) (db table : Bytes) (sel : Selection)
    → ((record_accessed_write_unique resp db table sel).code ≡ resp.code)
      × ((record_accessed_write_unique resp db table sel).statement_type ≡ resp.statement_type)
unfolding record_accessed_write_unique
record_accessed_write_unique_same resp db table sel =
    let dropped = record resp {
      original_accessed_tables = drop_unqualified table resp.original_accessed_tables;
    } in
    let plain = record_accessed_write_same resp db table sel in
    let filtered = record_accessed_write_same dropped db table sel in
    elim (Bool-cases (any (is_record_of db table) resp.original_accessed_tables)) [
      | inl e ↦ rw (e) (refl, refl)
      | inr e ↦ elim (Bool-cases (db == [])) [
        | inl n ↦ rw (e, n) plain
        | inr n ↦ rw (e, n) filtered
      ]
    ]

pub system-IsRefusal :
    (sql table : Bytes) (sel : Selection)
    → IsRefusal sql (echoing sql (reject_system_table fresh table sel))
unfolding reject_system_table new_write_resp
system-IsRefusal sql table sel =
    let refused = record (without_rewrites fresh) {
      code = unsupported_statement;
      message = system_table_refused_message table;
    } in
    let same = record_accessed_write_unique_same refused (codes "system") table sel in
    elim (Bool-cases (table == [])) [
      | inl e ↦ rw (e) ((refl, refl), refl)
      | inr e ↦ rw (e) ((ap is_success same.0, same.1), refl)
    ]
