-- ===== src/Ledger.antt =====
-- The double-entry ledger of one merchant: src/do/ledger-do.ts with its types, chart and D1 mirror.
-- The children follow the path of a posting: its shape, the tables, the funds check, the commit.
pub mod Types
pub mod Chart
pub mod Shape
pub mod Book
pub mod Funds
pub mod State
pub mod Mirror
pub mod Post
pub mod Invariant
pub mod Trial
pub mod Outbox
pub mod Alarm
pub mod System
mod Tests
