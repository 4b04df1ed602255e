-- ===== src/Config.antt =====
-- The configuration file (crates/geata/src/config.rs), from its text to the sites.
pub mod Token
pub mod Tokenizer
pub mod Handler
pub mod Name
pub mod Directives
pub mod Block
pub mod Sites
pub mod Outcome
pub mod Valid
