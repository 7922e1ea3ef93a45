-- ===== src/Capture.antt =====
-- The capture package: requests, the inbox session, the version chains and the append operation.
pub mod Requests
pub mod Inbox
pub mod Intake
pub mod Listing
pub mod Append
pub mod Chain
pub mod Commit
mod Tests
