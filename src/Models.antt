-- ===== src/Models.antt =====
-- models.py and the policy model of policy.py: the contracts, and the validation of their values.
-- A child has the contracts of one topic; each contract has its list of validation errors.
pub mod Patterns
pub mod Topology
pub mod Route
pub mod Validate
pub mod Reread
pub mod Validated
pub mod Decision
pub mod Fabric
