-- ===== src/Kms.antt =====
-- The errors of a key service and the text frame that survives being flattened
-- (internal/kms/kms.go), and the fault-injecting provider (fake.go, fault.go, truth.go).
pub mod Errors
pub mod Frame
pub mod RoundTrip
pub mod First
pub mod Fault
pub mod Fake
pub mod Truth
