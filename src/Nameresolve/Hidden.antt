-- ===== src/Nameresolve/Hidden.antt =====
-- hidden.go: what an inverted error text may not contain.
pub mod Literals
pub mod Identifiers
use rewriter_go.Prelude.{
  ℕ, ◌-◌, Bool, true, false, not, ◌&&◌, ◌||◌, List, [], ◌∷◌, ◌++◌, Option, none, some, eqb, leb,
  length, if◌then◌else◌, or_default, is_some,
}
use rewriter_go.Prelude.Text.{
  Bytes, ◌==◌, codes, contains, cut_at, has_byte, trim_left, trim, fields,
}
use rewriter_go.Prelude.Dict.{Dict, lookup, keys}
use rewriter_go.Prelude.Sort.{sort_strings, add_key}
use rewriter_go.Nameresolve.Request.{
  SiTable, StaticArgs, DynamicArgs, Upstream, RemoteTable, TableWithDatabase, RewriteOption,
  get_storage_integrity,
}
use rewriter_go.Nameresolve.Identifier.{dot}
use rewriter_go.Nameresolve.Namespaces.{protected_database}
use rewriter_go.Nameresolve.Selecting.{Selection, mode_none, mode_static, mode_dynamic, find_active}

abbrev pub min_hidden_literal : ℕ
min_hidden_literal = 4

unfoldable pub database_part : Bytes → Bytes
database_part qualified = elim (cut_at dot qualified) [ none ↦ [] | some (db, _) ↦ db ]

-- The closure `add` of `appendRemoteAddress`.
unfoldable pub add_literal : Bytes → List Bytes → List Bytes
add_literal v literals =
    let t = trim v in
    if leb min_hidden_literal (length t) && not (contains t literals)
    then literals ++ (t ∷ [])
    else literals

-- The host of one shard or replica: `[ipv6]`, `[ipv6]:port`, or `host:port` with one colon.
unfoldable pub add_host : Bytes → List Bytes → List Bytes
add_host [] literals = literals
add_host (c ∷ rest) literals =
    if eqb c b'['
    then elim (cut_at b']' rest) [ none ↦ literals | some (host, _) ↦ add_literal host literals ]
    else elim (cut_at b':' (c ∷ rest)) [
      | none ↦ literals
      | some (host, port) ↦ if has_byte b':' port then literals else add_literal host literals
    ]

unfoldable pub add_parts : List Bytes → List Bytes → List Bytes
add_parts [] literals = literals
add_parts (part ∷ parts) literals =
    let p = trim_left part in add_parts parts (add_host p (add_literal p literals))

-- `r == ',' || r == '|'`
abbrev pub is_separator : ℕ → Bool
is_separator r = eqb r b',' || eqb r b'|'

unfoldable pub append_remote_address : List Bytes → Bytes → List Bytes
append_remote_address literals addr =
    add_parts (fields is_separator addr) (add_literal addr literals)

unfoldable pub append_secret : List Bytes → Bytes → List Bytes
append_secret literals secret =
    if leb min_hidden_literal (length secret) then literals ++ (secret ∷ []) else literals

-- `candidates[db] = true` for each of a list
unfoldable pub add_keys : List Bytes → List Bytes → List Bytes
add_keys [] seen = seen
add_keys (db ∷ dbs) seen = add_keys dbs (add_key db seen)

unfoldable pub values : Dict Bytes → List Bytes
values [] = []
values ((_, v) ∷ m) = v ∷ values m

-- The getters of a nil table return "".
unfoldable pub table_parts : Dict (Option SiTable) → List Bytes
table_parts [] = []
table_parts ((_, none) ∷ tables) = database_part [] ∷ database_part [] ∷ table_parts tables
table_parts ((_, some tbl) ∷ tables) =
    database_part tbl.safe_table ∷ database_part tbl.unsafe_table ∷ table_parts tables

-- `for db := range from { if p(db) { into[db] = true } }`
unfoldable pub add_where : (Bytes → Bool) → List Bytes → List Bytes → List Bytes
add_where p [] into = into
add_where p (db ∷ dbs) into = add_where p dbs (if p db then add_key db into else into)

unfoldable pub candidates : DynamicArgs → List Bytes
candidates a =
    let si = get_storage_integrity a in
    add_keys (table_parts si.tables) (
      add_keys si.reserved_databases
        (add_keys (values a.database_map) (add_keys a.protected_databases [])))

unfoldable pub dynamic_physical : DynamicArgs → List Bytes
dynamic_physical a = add_where (λ db. protected_database db a) (candidates a) []

unfoldable pub dynamic_visible : DynamicArgs → List Bytes
dynamic_visible a =
    let physical = dynamic_physical a in
    let visible = add_keys (keys a.database_map) [] in
    let visible' =
      add_where (λ db. not (contains db physical)) a.known_physical_databases visible in
    let ctx = a.upstream_logical_database_in_context in
    if ctx == [] then visible' else add_key ctx visible'

-- One round of the loop over the upstreams.
unfoldable pub add_upstream : List Bytes → Option Upstream → List Bytes
add_upstream literals none = literals
add_upstream literals (some up) = append_secret (append_remote_address literals up.addr) up.password

-- The loop over the sorted keys of remote_upstreams.
unfoldable pub upstream_literals : Dict Upstream → List Bytes → List Bytes → List Bytes
upstream_literals upstreams [] literals = literals
upstream_literals upstreams (key ∷ rest) literals =
    upstream_literals upstreams rest (add_upstream literals (lookup key upstreams))

unfoldable pub origin_parts : List Bytes → List Bytes
origin_parts [] = []
origin_parts (name ∷ rest) = database_part name ∷ origin_parts rest

-- `addOrigin` over the keys of one map
unfoldable pub add_origins : List Bytes → List Bytes → List Bytes
add_origins names visible = add_where (λ db. not (db == [])) (origin_parts names) visible

unfoldable pub with_database_targets : Dict TableWithDatabase → List Bytes
with_database_targets [] = []
with_database_targets ((_, target) ∷ m) = target.database ∷ with_database_targets m

unfoldable pub remote_targets : Dict RemoteTable → List Bytes
remote_targets [] = []
remote_targets ((_, remote) ∷ m) = remote.database ∷ remote_targets m

unfoldable pub add_remote : List Bytes → Option RemoteTable → List Bytes
add_remote literals none = literals
add_remote literals (some remote) =
    append_secret (append_remote_address literals remote.addr) remote.password

-- The loop over the sorted keys of remote_table_map.
unfoldable pub remote_literals : Dict RemoteTable → List Bytes → List Bytes → List Bytes
remote_literals remotes [] literals = literals
remote_literals remotes (origin ∷ rest) literals =
    remote_literals remotes rest (add_remote literals (lookup origin remotes))

unfoldable pub static_visible : StaticArgs → List Bytes
static_visible a =
    add_origins (keys a.remote_table_map)
      (add_origins (keys a.table_with_database_map) (add_origins (keys a.table_map) []))

unfoldable pub static_physical : StaticArgs → List Bytes
static_physical a =
    add_keys (remote_targets a.remote_table_map)
      (add_keys (with_database_targets a.table_with_database_map) [])

-- The databases that stay hidden: physical ones that are not empty and not visible.
unfoldable pub hidden_identifiers : List Bytes → List Bytes → List Bytes
hidden_identifiers physical visible =
    sort_strings (add_where (λ db. not (db == []) && not (contains db visible)) physical [])

unfoldable pub hidden_names_of : Selection → List Bytes × List Bytes
hidden_names_of mode_none = (hidden_identifiers [] [], [])
hidden_names_of (mode_dynamic a) = (
  hidden_identifiers (dynamic_physical a) (dynamic_visible a),
  upstream_literals a.remote_upstreams (sort_strings (keys a.remote_upstreams)) [],
)
hidden_names_of (mode_static a) = (
  hidden_identifiers (static_physical a) (static_visible a),
  remote_literals a.remote_table_map (sort_strings (keys a.remote_table_map)) [],
)

unfoldable pub hidden_names : List RewriteOption → List Bytes × List Bytes
hidden_names opts = hidden_names_of (find_active opts)
