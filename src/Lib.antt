-- ===== src/Lib.antt =====
-- Tunnelfolio keeps VPN profiles, checks them on import, and brings at most one tunnel up. This library
-- models its Go core and proves what makes it correct.
--
-- The parts and the files that model them, by the paths of the repository:
--   Profiles   internal/profiles/model.go: `Profile`, `Manifest` (Profiles/Model), `ValidateManifest`
--              (Profiles/Manifest), `GenerateID` and `RuntimeIdentifier` (Profiles/Id); and the dispatch
--              of policy.go (Profiles/Import).
--   Policy     internal/profiles/policy.go: a check's result, an accepted value or a rejection with
--              its line and code.
--   OpenVpn    internal/profiles/openvpn_policy.go: continuation lines (OpenVpn/Lines), tokens
--              (OpenVpn/Tokens), the directive tables (OpenVpn/Directives) and
--              `ValidateOpenVPNImport` (OpenVpn/Policy).
--   WireGuard  internal/profiles/wireguard_policy.go: sections and keys (WireGuard/Sections) and
--              `ValidateWireGuardImport` (WireGuard/Policy).
--   Store      internal/profiles/store.go: the manifest in memory with its flag `durabilityUnknown`,
--              publication and repair (Store/State), the edits through `mutate` (Store/Changes),
--              `Remove` (Store/Removal), `Publish` (Store/Publish) with the files that it stages
--              and moves (Store/Staging), `OpenStore` (Store/Opening) with the clean-up of remnants
--              (Store/Remnants), object checks (Store/Objects) and `PrepareExecution`
--              (Store/Execution).
--   Import     internal/profiles/import.go: the limits of a request and the detection of a protocol
--              (Import/Detect), the service with its gate and identities (Import/Service), the receipt
--              and the input of its signature (Import/Receipt), `Inspect` (Import/Inspect), the
--              re-inspection and the plan of a commit (Import/Reinspect, Import/Plan) and `Commit`
--              (Import/Commit).
--   Manager    internal/manager/manager.go: the gate, the lifecycle and the private copies
--              (Manager/State, Manager/Executions), the calls of a backend (Manager/Tunnels), the
--              operations (Manager/Recovery, Manager/Connect, Manager/Disconnect, Manager/Startup), what
--              a backend answered where they succeed (Manager/Evidence), what every sequence of them
--              keeps (Manager/Runs), and what a reader is shown (Manager/Views, Manager/Status).
--   Tests      a small library on a machine whose calls succeed, at which the theorems are applied.
--
-- The manager and the import service call the store, the store calls the machine. A stateful method
-- is a function from the state to a result and a state, written as a do block (Prelude/Exec). The
-- machine is an interface, `Store.Host.Host` for internal/securefs, the clock and the random
-- source, and `Manager.Backends.Backends` for internal/tunnel, `Import.Service.Collaborators` for
-- what the import service is given; the theorems hold for every one of them, so also when any call
-- fails at any point. Methods that take the store's mutex or the manager's gate are single steps; a
-- call that waits for the gate is the step that it takes once it has it.
--
-- Strings are lists of bytes, decoded as UTF-8 where the code ranges over runes. An error is the
-- list of the sentinels at the leaves of its tree, which is what `errors.Is` reads; messages are
-- left out except for the manager's last error and for why a profile is not available. A number of
-- type uint64 wraps (`LibraryRevision`). Loops are structural recursion; the decimal text of a
-- revision has fuel 20, the digits of 2 ^ 64, and `generateIdentity` its own 128 attempts.
--
-- Parameters: address parsing, SHA-256 and X25519 (`Prelude.Platform.Platform`), HMAC, the clock
-- and the compatibility checker of the import, the file system, the backends and the text of an
-- instant. Not modelled: internal/httpapi, internal/web, cmd, the process control of
-- internal/tunnel, the system calls of internal/securefs, of the import the suggested display
-- names, `NewImportService` and the JSON of `DecodeMetadataDocument`, of the store the sorted list
-- and the release of its lock, and of the manager the list of all views; contexts and time-outs,
-- since a call that is cut short is one that answers with an error.
pub mod Prelude
pub mod Profiles
pub mod Policy
pub mod OpenVpn
pub mod WireGuard
pub mod Store
pub mod Manager
pub mod Tests
pub mod Import
