-- ===== src/Database.antt =====
-- backend/internal/database: the tables that the crawler and the accounts work on. Each SQL statement
-- is a function on the rows of its table. Timestamps are microseconds, the resolution of PostgreSQL;
-- one transaction is one function, as the database serializes them. An error of the driver or of the
-- connection ends each function before its commit and changes nothing, and is left out.
pub mod Store
pub mod Queue
pub mod Rows
pub mod Retry
pub mod Blacklist
pub mod Refusal
pub mod Keys
pub mod Operations
pub mod Claims
pub mod Quota
pub mod Failures
pub mod Gaps
pub mod Annotations
pub mod Reads
pub mod Retention
