-- ===== src/Security.antt =====
-- crates/gaugemesh-core/src/security.rs: the parts that guard access.
pub mod ApiKeys
pub mod Tokens
pub mod Origins
