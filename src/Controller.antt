-- ===== src/Controller.antt =====
-- internal/controller: conversions, conditions, predicates.
pub mod Status
pub mod Convert
pub mod Predicates
pub mod ClusterDomain
pub mod Client
pub mod Reconciler
pub mod Setup
pub mod Fragment
pub mod Admitted
pub mod Sample
pub mod Tests
