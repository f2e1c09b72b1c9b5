-- ===== src/Syntax.antt =====
-- The input tokenizer (src/syntax.rs and src/syntax/token.rs).
pub mod Token
pub mod Classes
pub mod Spans
pub mod Scan
pub mod Strings
pub mod Paste
pub mod Step
pub mod Parser
