-- ===== src/Profiles.antt =====
-- internal/profiles: the managed library of profiles. `Model` has its data and the checks of a
-- profile, `Manifest` the check of a whole manifest.
pub mod Model
pub mod Manifest
pub mod Import
pub mod Id
pub mod Find
