-- ===== src/Engine.antt =====
-- internal/engine, as far as it works on names and on tokens: the allowlists, the settings, the case of
-- words, and the scans of a token list. The lexer is a parameter.
pub mod Case
pub mod Tokens
pub mod Allowlists
pub mod Settings
pub mod Brackets
pub mod Whole
pub mod Guard
pub mod Drop
pub mod Grant
pub mod Objects
