-- ===== src/Handlers.antt =====
-- internal/handlers: the decisions of the statement handlers over the name resolution.
pub mod Targets
pub mod Check
pub mod Accessed
pub mod Readers
pub mod Settings
pub mod Carriers
pub mod Preflight
pub mod Composition
pub mod Namespaces
