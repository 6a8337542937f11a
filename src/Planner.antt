-- ===== src/Planner.antt =====
-- src/gamehub_cli/sync/planner.py: the plan of a sync. `Files` plans firmware, ROMs and assets,
-- `Decide` decides one save, `SavePlan` plans the saves, `Create` puts them together; the modules
-- below those hold the proofs.
pub mod Types
pub mod Files
pub mod Decide
pub mod SavePlan
pub mod Create
