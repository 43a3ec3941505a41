-- ===== src/Proto.antt =====
-- crates/envproxy-proto/src/lib.rs: the wire protocol and the `vault:` references.
pub mod Wire
pub mod RoundTrip
pub mod Reject
pub mod VaultRef
pub mod Accept
