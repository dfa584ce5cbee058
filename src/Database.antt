-- ===== src/Database.antt =====
-- internal/database: the parts that are no calls of drivers.
pub mod Rewrite
