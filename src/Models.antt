-- ===== src/Models.antt =====
-- app/models: the status enumerations, the rows of the tables, and the database that the services
-- read and write. Timestamps are whole seconds of UTC. Left out: the columns that only the pages
-- show (created_at, updated_at, list descriptions), and the raw webhook payload.
mod Enums
mod Rows
mod Database
pub use Enums.*
pub use Rows.*
pub use Database.*
