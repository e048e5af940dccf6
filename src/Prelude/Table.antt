-- ===== src/Prelude/Table.antt =====
-- A database table as the list of its rows, and the SQL statements that the repositories send:
-- SELECT, UPDATE and DELETE under a WHERE test, and the number of rows that they affect. A test on
-- a NULL column is false, as a comparison with NULL is.
mod Statements
mod Counts
mod Found
unfoldable pub use Statements.*
pub use Counts.*
pub use Found.*
