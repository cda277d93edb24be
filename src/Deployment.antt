-- ===== src/Deployment.antt =====
-- How a topology becomes the configuration of the PBX: backend/src/asterisk/deploy.ts. Configs tests
-- the generated files, Health the answers of the PBX, Staging writes a version of the files, Run
-- activates it and takes it back where something fails.
pub mod Configs
pub mod Health
pub mod Staging
pub mod Run
pub mod Chain
pub mod Success
pub mod Transition
