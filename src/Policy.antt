-- ===== src/Policy.antt =====
-- policy.py: the digests of a topology and a policy, and the admission of a route plan.
pub mod Digest
pub mod Admit
pub mod Spec
pub mod Sound
pub mod Causes
pub mod Denied
pub mod Reasons
pub mod Total
pub mod Order
pub mod Invariance
pub mod Effective
pub mod Tighter
