-- ===== src/Models.antt =====
-- The ORM models of bot/database/models: one record per table, and the database as the tables.
-- Money and percentages of `Numeric(…, 2)` are whole hundredths.
mod Tables
mod Sales
pub mod Permission
pub use Tables.*
pub use Sales.*
