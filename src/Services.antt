-- ===== src/Services.antt =====
-- server/src/services and server/src/db/db.c, as programs over SQLite.
pub mod Common
pub mod Logs
pub mod Database
pub mod Balance
pub mod Orders
pub mod Products
pub mod Users
mod Tests
