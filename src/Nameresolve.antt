-- ===== src/Nameresolve.antt =====
-- internal/nameresolve: the policy that maps logical (database, table) names to physical ones. Pure:
-- requests come in as records, answers go out as records. One child for each concern.
pub mod Request
pub mod Identifier
pub mod Messages
pub mod Contract
pub mod Namespaces
pub mod Integrity
pub mod Resolve
pub mod Selecting
pub mod SystemTables
pub mod Validate
pub mod Hidden
