-- ===== src/Store.antt =====
-- internal/store/store.go: the server's state, in SQLite.
--
-- The database is a value of `Db`, a table a list of its rows. A method that changes it returns the
-- new database. A database call can fail for reasons outside the program; `fails n` says whether
-- the n-th call of a method does.
pub mod Db
mod Calls
pub mod Report
pub mod Tokens
pub mod Snapshot
