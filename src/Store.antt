-- ===== src/Store.antt =====
-- internal/profiles/store.go: the store of the managed library. `Host` is its interface to the files
-- (internal/securefs), `Objects` reads saved profiles, `State` holds the manifest and its durable
-- publication, `Changes` has the operations that edit the manifest, `Removal` and `Publication` those
-- that also move files, and `Execution` makes the private copies that tunnels run from.
pub mod Host
pub mod Calm
pub mod Objects
pub mod State
pub mod Changes
pub mod Removal
pub mod Execution
pub mod Staging
pub mod Publish
pub mod Remnants
pub mod Opening
