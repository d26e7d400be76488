-- ===== src/Store.antt =====
-- app/store.py: every persistent record of Hub.
pub mod Users
pub mod Tenants
pub mod Queue
pub mod Usb
pub mod Payload
pub mod Push
pub mod Settings
pub mod Spokes
pub mod Lookup
pub mod Audit
pub mod Pending
pub mod QaKeys
pub mod Macs
