-- ===== src/Steps.antt =====
-- internal/steps: the catalog of fix steps, their arguments, and the helper that runs as root.
pub mod Params
pub mod Catalog
pub mod Validate
pub mod PrivArgs
pub mod Runner
pub mod Helper
