-- ===== src/Core.antt =====
-- internal/cmek: the lease, the data-key cache and the key state machine of each tenant.
pub mod Lease
pub mod Types
pub mod Texts
pub mod Classify
pub mod Tenant
pub mod Apply
pub mod Invariant
pub mod Run
pub mod Fetcher
pub mod Manager
pub mod Delivery
pub mod Sweep
pub mod Rely
pub mod Bound
pub mod Renewal
pub mod Flights
pub mod Envelope
pub mod Handles
pub mod Encrypt
pub mod Decrypt
pub mod Revocation
pub mod StateMachine
pub mod Denial
pub mod Sections
pub mod Schedule
pub mod Sealing
pub mod Retry
