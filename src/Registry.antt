-- ===== src/Registry.antt =====
-- app/modules/registry: the write side of the registry. `Requests` has the request schemas,
-- `Commands` what all commands share, one module for each kind of entity its three commands, and
-- `Service` the dispatch over all of them.
pub mod Requests
pub mod Commands
pub mod Agents
pub mod Models
pub mod Graphs
pub mod Deployments
pub mod Tools
pub mod Environments
pub mod Service
pub mod Queries
pub mod Api
