-- ===== src/Store.antt =====
-- hub/internal/store: the rows that the hub's SQLite database keeps, and the operations on them. A
-- table is the list of its rows; a statement reads or writes the rows that pass its WHERE clause,
-- and a transaction is one step. Failures of the database itself are not modelled.
pub mod Rows
pub mod Sessions
pub mod Users
pub mod Refresh
mod Examples
