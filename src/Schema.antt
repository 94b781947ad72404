-- ===== src/Schema.antt =====
-- internal/schema: the names that a policy and its requests share.
pub mod Interner
