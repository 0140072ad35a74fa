-- ===== src/WireGuard.antt =====
-- internal/profiles/wireguard_policy.go: which WireGuard files may be imported. `Sections` reads a
-- file into sections, `Policy` checks their values.
pub mod Sections
pub mod Policy
