-- ===== src/Registry/Api.antt =====
-- app/modules/registry/api.py: the routes of the registry.
pub mod Mutations
pub mod Reads
pub mod Routed
pub mod Guarded
pub mod Accountable
