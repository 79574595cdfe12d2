-- ===== src/Pveapi.antt =====
-- internal/pveapi: the client of the Proxmox VE REST API.
pub mod Errors
pub mod Permissions
pub mod Groups
pub mod Classify
pub mod Wire
pub mod Decimal
pub mod Client
pub mod Mock
pub mod Types
pub mod Interface
