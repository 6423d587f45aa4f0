-- ===== src/Database.antt =====
-- src/db.py: the table of models, the statements that change it, and the thread that runs them.
pub mod Models
pub mod Writes
pub mod Writer
pub mod Activation
pub mod Unique
pub mod Overrides
