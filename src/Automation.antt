-- ===== src/Automation.antt =====
-- Automation-IP-Handle: names from a file, looked up in a MySQL table, one transaction each.
pub mod Permission
pub mod Revice
pub mod Sequential
pub mod Command
pub mod Channel
mod Tests
mod ChannelTests
