-- ===== src/Sql.antt =====
-- What the code relies on of sea_orm and of the database behind it, as an interface: the condition
-- builder with SQL's three truth values, and select and delete statements over the rows of one
-- table. Each law is documented behaviour. `Sql.Toy` is a value of it.
pub mod Defs
pub mod Toy
pub use Defs.*
