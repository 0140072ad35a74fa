-- ===== src/Import.antt =====
-- internal/profiles/import.go: inspection of files before an import, the signed receipt that binds it,
-- and the commit. `Model` is the data, `Receipt` the receipt, `Detect` the protocol of a file,
-- `Service` the service's state and what it asks of its surroundings, and `Inspect` and `Commit` the
-- operations.
pub mod Model
pub mod Receipt
pub mod Detect
pub mod Service
pub mod Inspect
pub mod Plan
pub mod Reinspect
pub mod Commit
