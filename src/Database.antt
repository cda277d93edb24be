-- ===== src/Database.antt =====
-- The database of the backend: backend/src/model/database.ts. Store has the tables, Secrets the
-- encrypted SIP passwords, Summary the text that describes a change, Revisions the
-- topologies, Edits the operations that change them, Deployments their log, Users, Sessions and Logins the accounts.
pub mod Store
pub mod Secrets
pub mod Summary
pub mod Revisions
pub mod Edits
pub mod Deployments
pub mod Initial
pub mod Seed
pub mod Startup
pub mod Users
pub mod Sessions
pub mod Logins
pub mod Rotation
pub mod Invariant
