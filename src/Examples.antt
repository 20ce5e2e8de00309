-- ===== src/Examples.antt =====
-- Concrete runs and instances of the theorems.
mod Data
mod Stamps
mod Runs
mod Routes
mod Witnesses
mod Observed
mod Commands
mod Stores
mod Worlds
mod Endpoints
mod Canonical
mod Pinned
mod Denied
mod Shared
mod Claimed
mod Streams
mod Tighter
mod Reread
