-- ===== src/Engine/Allowlists.antt =====
-- allowlists.go of internal/engine: which table functions, table engines and table settings a statement
-- may use.
pub mod Accepted
use rewriter_go.Prelude.{
  Bool, List, [], any, drop, eqb, if◌then◌else◌, length, ℕ, ◌&&◌, ◌++◌, ◌||◌, ◌∷◌,
}
use rewriter_go.Engine.Case.{to_lower}
use rewriter_go.Prelude.Text.{Bytes, codes, contains, has_prefix, ◌==◌}

-- TableFunctionClass
pub data TableFunctionClass : Type 0 where
  table_function_unknown table_function_refused : TableFunctionClass
  table_function_data_only table_function_external : TableFunctionClass

-- TableEngineClass
pub data TableEngineClass : Type 0 where
  table_engine_refused table_engine_allowed_class table_engine_unknown : TableEngineClass

unfoldable pub refused_table_functions : List Bytes
refused_table_functions =
    codes "merge"
    ∷ codes "remote"
    ∷ codes "remotesecure"
    ∷ codes "cluster"
    ∷ codes "clusterallreplicas"
    ∷ codes "loop"
    ∷ codes "dictionary"
    ∷ codes "mergetreeindex"
    ∷ codes "mergetreeprojection"
    ∷ codes "timeseriesdata"
    ∷ codes "timeseriestags"
    ∷ codes "timeseriesmetrics"
    ∷ codes "timeseriesselector"
    ∷ codes "prometheusquery"
    ∷ codes "prometheusqueryrange"
    ∷ codes "clickhouse"
    ∷ codes "mysql"
    ∷ codes "postgresql"
    ∷ codes "mongodb"
    ∷ codes "jdbc"
    ∷ codes "odbc"
    ∷ codes "executable"
    ∷ codes "fuzzquery"
    ∷ codes "fuzzjson"
    ∷ []

unfoldable pub data_only_table_functions : List Bytes
data_only_table_functions =
    codes "numbers"
    ∷ codes "numbers_mt"
    ∷ codes "generate_series"
    ∷ codes "generateseries"
    ∷ codes "generaterandom"
    ∷ codes "zeros"
    ∷ codes "zeros_mt"
    ∷ codes "null"
    ∷ codes "values"
    ∷ codes "format"
    ∷ codes "input"
    ∷ codes "view"
    ∷ []

unfoldable pub external_table_functions : List Bytes
external_table_functions =
    codes "url"
    ∷ codes "s3"
    ∷ codes "gcs"
    ∷ codes "oss"
    ∷ codes "cosn"
    ∷ codes "file"
    ∷ codes "hdfs"
    ∷ codes "azureblobstorage"
    ∷ codes "iceberg"
    ∷ codes "deltalake"
    ∷ codes "hudi"
    ∷ codes "urlcluster"
    ∷ codes "s3cluster"
    ∷ codes "filecluster"
    ∷ codes "hdfscluster"
    ∷ codes "azureblobstoragecluster"
    ∷ codes "icebergcluster"
    ∷ codes "deltalakecluster"
    ∷ codes "hudicluster"
    ∷ codes "sqlite"
    ∷ codes "redis"
    ∷ []

unfoldable pub classify_table_function : Bytes → TableFunctionClass
classify_table_function name =
    let lower_name = to_lower name in
    if contains lower_name refused_table_functions || has_prefix lower_name (codes "mergetree")
    then table_function_refused
    else if contains lower_name data_only_table_functions
    then table_function_data_only
    else if contains lower_name external_table_functions
    then table_function_external
    else table_function_unknown

unfoldable pub allowed_table_engines : List Bytes
allowed_table_engines =
    codes "MergeTree"
    ∷ codes "ReplacingMergeTree"
    ∷ codes "SummingMergeTree"
    ∷ codes "AggregatingMergeTree"
    ∷ codes "CollapsingMergeTree"
    ∷ codes "VersionedCollapsingMergeTree"
    ∷ codes "GraphiteMergeTree"
    ∷ codes "Memory"
    ∷ codes "Log"
    ∷ codes "TinyLog"
    ∷ codes "StripeLog"
    ∷ codes "Null"
    ∷ codes "Set"
    ∷ codes "Join"
    ∷ codes "View"
    ∷ codes "MaterializedView"
    ∷ codes "LiveView"
    ∷ []

abbrev pub replicated : Bytes
replicated = codes "Replicated"

-- `strings.HasPrefix(name, "Replicated") && allowedTableEngines[strings.TrimPrefix(…)]`
unfoldable pub is_replicated_engine : Bytes → Bool
is_replicated_engine name =
    has_prefix name replicated && contains (drop (length replicated) name) allowed_table_engines

-- One round of the loop over the allowed engines.
unfoldable pub same_but_case : Bytes → Bytes → Bool
same_but_case lower_name allowed =
    to_lower allowed == lower_name || (codes "replicated" ++ to_lower allowed) == lower_name

unfoldable pub classify_table_engine : Bytes → ℕ → TableEngineClass
classify_table_engine name arg_count =
    if is_replicated_engine name
    then (if eqb arg_count 0 then table_engine_allowed_class else table_engine_refused)
    else if contains name allowed_table_engines
    then table_engine_allowed_class
    else if any (same_but_case (to_lower name)) allowed_table_engines
    then table_engine_unknown
    else table_engine_refused

unfoldable pub refused_table_settings : List Bytes
refused_table_settings = codes "disk" ∷ codes "storage_policy" ∷ []

unfoldable pub refused_table_setting : Bytes → Bool
refused_table_setting name = contains (to_lower name) refused_table_settings

unfoldable pub table_function_refused_message : Bytes → Bytes
table_function_refused_message name = codes "table function " ++ (name ++ codes " is not accepted")

unfoldable pub table_function_unknown_message : Bytes → Bytes
table_function_unknown_message name =
    codes "table function " ++ (name ++ codes " is not recognised")

unfoldable pub table_engine_refused_message : Bytes → Bytes
table_engine_refused_message name = codes "table engine " ++ (name ++ codes " is not accepted")

unfoldable pub table_engine_unknown_message : Bytes → Bytes
table_engine_unknown_message name = codes "table engine " ++ (name ++ codes " is not recognised")

unfoldable pub table_setting_refused_message : Bytes → Bytes
table_setting_refused_message name = codes "table setting " ++ (name ++ codes " is not accepted")

unfoldable pub deployment_identity_functions : List Bytes
deployment_identity_functions =
    codes "currentdatabase"
    ∷ codes "database"
    ∷ codes "schema"
    ∷ codes "current_database"
    ∷ codes "currentschemas"
    ∷ codes "current_schemas"
    ∷ codes "currentuser"
    ∷ codes "user"
    ∷ codes "current_user"
    ∷ codes "session_user"
    ∷ codes "hostname"
    ∷ codes "fqdn"
    ∷ codes "fullhostname"
    ∷ codes "serveruuid"
    ∷ codes "getmacro"
    ∷ []

unfoldable pub deployment_identity_function : Bytes → Bool
deployment_identity_function name = contains (to_lower name) deployment_identity_functions
