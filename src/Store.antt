-- ===== src/Store.antt =====
-- src/store.rs: the persistence layer, by its tables and caches.
pub mod Data
pub mod After
pub mod Keys
pub mod Tenants
pub mod Origins
pub mod Dictionaries
pub mod Background
pub mod Open
