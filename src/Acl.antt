-- ===== src/Acl.antt =====
-- internal/acl/acl.go: destination policies over names and resolved addresses.
pub mod Names
pub mod Rules
pub mod Policy
pub mod Resolve
pub mod Dial
