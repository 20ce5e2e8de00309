-- ===== src/Attestation.antt =====
-- attestation.py: building and verifying the receipts of a route.
pub mod Build
pub mod Verify
pub mod Spec
pub mod Receipt
pub mod Chain
pub mod Returns
pub mod Outcome
pub mod Payload
pub mod Pinned
pub mod ChainPinned
pub mod LastReceipt
pub mod Evidence
pub mod ReasonCodes
pub mod Contract
pub mod Causes
pub mod Reasoned
pub mod ReasonedChain
pub mod Denied
pub mod Session
pub mod Concurrent
pub mod Signing
pub mod Unsigned
pub mod Made
pub mod Built
