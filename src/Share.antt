-- ===== src/Share.antt =====
-- backend/src/share: access to shares, and the operations of the share service.
mod Tests
pub mod Request
pub mod Access
pub mod IpAccess
pub mod Token
pub mod Security
pub mod SecurityUpdate
pub mod Create
pub mod Complete
pub mod Edit
pub mod Remove
pub mod Visit
pub mod Guard
