-- ===== src/Tests.antt =====
-- The theorems, applied at a small library and to small files.
mod Library
mod Manager
mod Store
mod Import
mod Opening
mod Profiles
