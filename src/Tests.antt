-- ===== src/Tests.antt =====
-- A call flow that passes the validation, and the results of the development at it.
mod Sample
mod Validation
mod Editing
mod Monitoring
mod Storage
mod Accounts
mod Access
mod Shapes
mod Deploying
mod Generation
