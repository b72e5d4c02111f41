-- ===== src/Native.antt =====
-- native.go, service.go and the gates of internal/handlers that they call: the pipeline of one
-- rewrite, over an interface for the engine and the statement handlers, and the inversion of error
-- texts on a connection.
pub mod Response
pub mod Engine
pub mod Classify
pub mod Gates
pub mod Finalize
pub mod Pipeline
pub mod Rewrite
pub mod Connection
