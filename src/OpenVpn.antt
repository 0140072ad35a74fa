-- ===== src/OpenVpn.antt =====
-- internal/profiles/openvpn_policy.go: which OpenVPN files may be imported. `Lines` cuts a file into
-- lines and reads continuations, `Tokens` splits a logical line, `Policy` is the walk over a file.
pub mod Lines
pub mod Tokens
pub mod Directives
pub mod Policy
