-- ===== src/Paths.antt =====
-- What backend.go hands to Vault's framework: the paths of the mount with their fields and
-- callbacks, the secret types, and the parameters of the WAL. Texts that are only displayed are left
-- out.
pub mod Fields
pub mod Requests
pub mod Tables
pub mod Registration
pub mod Defined
pub mod Total
pub mod Defaults
