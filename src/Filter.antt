-- ===== src/Filter.antt =====
-- libs/modkit-db/src/odata: filters as conditions. core.rs compiles the syntax tree by names, and
-- filter.rs with sea_orm_filter.rs by typed fields.
pub mod Like
pub mod Patterns
pub mod Coerce
pub mod Compile
pub mod Meaning
pub mod Connectives
pub mod Compiled
pub mod Conditions
pub mod Nodes
pub mod TypedMeaning
pub mod Conversion
pub mod Typed
pub mod Columns
pub mod Agreement
pub mod Hash
pub mod Spelling
pub mod Toy
mod Tests
