-- ===== src/Store.antt =====
-- internal/store: the SQLite tables, as keyed lists.
pub mod Monitors
pub mod Ledger
