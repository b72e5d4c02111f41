-- ===== src/Examples.antt =====
-- Sample requests, and the theorems of the other modules at them.
mod Requests
mod Toy
mod Names
mod Policy
mod Rewrites
mod Errors
mod Writes
mod Preflight
mod Scans
mod Grants
mod Objects
