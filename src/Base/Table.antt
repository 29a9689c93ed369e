-- ===== src/Base/Table.antt =====
-- A table of the database, as the services use it: rows that a statement reads, adds, changes or
-- removes. The server is not code of this repository, so a table is an interface, and its laws
-- say of every Boolean query how many rows it finds after a statement (SQL promises no order).
mod Defs
mod Laws
mod Lookup
mod Memory
pub use Defs.{Table, IsLawful}
pub use Laws.*
pub use Lookup.*
unfoldable pub use Memory.{list_table}
pub use Memory.{list_table-IsLawful}
