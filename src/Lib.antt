-- ===== src/Lib.antt =====
-- rewriter-go rewrites the SQL statements of a ClickHouse client for a shared deployment: a logical
-- table name of the client becomes the physical name behind it, statements that could reach what the
-- client may not are refused, and the physical names in an error text are mapped back or withheld.
--
-- The parts, and the files here that model them:
--
-- Prelude: what the other modules share. A Go string is the list of its bytes, a Go map an association
-- list whose first entry under a key counts; `range` over a map meets the entries in the list's order,
-- and Namespaces/Order says where that order does not matter.
--
-- Nameresolve: internal/nameresolve. Request holds the values that the getters of the protobuf
-- messages return. Resolve and Selecting are resolve.go (`LookupStatic`, `ApplyDynamic`, `FindActive`,
-- `Resolve`, `ResolveAccessed`), Identifier its small parsers, Integrity its storage-integrity
-- look-ups, Namespaces the protected and the protocol-owned databases (with protected.go), Validate
-- the two validations, Messages the refusal texts, Contract is contract.go, SystemTables
-- systemtables.go, Hidden hidden.go.
--
-- Reverse: internal/reverse/withheld.go, and `substituteBoundary` of reverse.go (Boundary), whose
-- matches, found by a regular expression, are a parameter.
--
-- Nameescape: internal/engine/nameescape.go. The state of a loop is what it has written and the text
-- that is left; `run` is on fuel, one more than the length of the text, and Nameescape/Loops shows
-- that it is enough. `utf8.ValidString` is a parameter.
--
-- Native: native.go and service.go. Engine is the interface to the external SQL parser, to the checks
-- and readers of its tree in internal/engine, and to the statement handlers of internal/handlers; no
-- law of it is assumed. Classify is `classify`; Gates and Finalize are `finalize` with the gates that
-- it runs (handlers/systemtables.go, handlers/storage_integrity_reject.go, parts of
-- handlers/storage_integrity_policy.go, handlers/writes.go and handlers/select.go); Pipeline is
-- `rewriteStatement`, Rewrite is `doRewrite` around it, Connection the state of a `NativeRewriter`,
-- with `reverse.Invert` as a parameter, and the error texts of `Service`. A Go error is `err` with its
-- text.
--
-- Engine: of internal/engine, what works on names and on tokens. Case is `strings.ToLower`, `ToUpper`
-- and `EqualFold` against ASCII words; Tokens the token of the lexer, which is a parameter; Allowlists
-- is allowlists.go, Settings settings.go, Brackets and Whole wholestmt.go without the texts of its
-- errors, Drop drop_grammar.go, Grant grant.go, with the two functions on its JSON node as parameters,
-- Objects objtarget.go, Guard guard.go, which reads the bytes of a statement and not its tokens, with
-- the bytes outside literals described in Guard/Code. An index into the tokens is the list that starts
-- there, a depth that may fall below zero two counts. The lists of assignments and the scan for
-- SETTINGS clauses and the names of a DROP TABLE are on fuel, one more than the number of tokens,
-- since each round takes one; the binary search of Whole is on the number of the tokens.
--
-- Handlers: of internal/handlers, the table-reference preflight (preflight.go). Check is the way its
-- checks return: an error, a refusal, or nothing, after which the next runs. Readers is the interface
-- to the readers of the tree in internal/engine, no law of which is assumed. Settings, Carriers and
-- Preflight are its functions; Preflight/Policy is the policy that they implement; Composition puts
-- the preflight, and the check that a statement was parsed in full, into the pipeline. Accessed
-- records databases in a response. Namespaces is the policy of storage_integrity_policy.go on names
-- outside the table nodes. Targets is the strict decision of the write targets (writes.go). The map of
-- renames that `applyStructuredSlots` fills is the list of the decisions in the order of the slots.
--
-- Fuel: the search of Reverse/Withheld is on the length of the text plus one.
--
-- Examples: sample requests, an engine for them, and the theorems below at these.
--
-- Not modelled: the parser binding, the tree readers and writers, the other token scanners and the
-- regeneration check of internal/engine, the rest of the statement handlers and of the inversion of
-- internal/reverse, and the materialization and snapshot-query interfaces. The pipeline takes what it
-- calls of them as parameters. The mutex of a connection makes each access to its last call one step.
pub mod Prelude
pub mod Nameresolve
pub mod Reverse
pub mod Nameescape
pub mod Engine
pub mod Native
pub mod Handlers
pub mod Examples
