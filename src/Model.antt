-- ===== src/Model.antt =====
-- The data of db_models.py and schemas.py: the enumerations, the tables' rows, the database as one
-- list of rows a table, and the request and response models.
pub mod Enums
pub mod Tables
pub mod Db
pub mod Accounts
pub mod Schemas
pub mod Endpoints
