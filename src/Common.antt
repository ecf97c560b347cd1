-- ===== src/Common.antt =====
-- Types that the whole program shares: src/common/.
pub mod Status
pub mod Tier
pub mod BlockIds
mod Tests
pub mod Database
pub mod MapDatabase
