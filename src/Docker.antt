-- ===== src/Docker.antt =====
-- docker/: the Docker runtime interpreter and what it stands on.
pub mod Names
pub mod Sdk
pub mod Labels
pub mod Authority
pub mod Result
pub mod Endpoints
pub mod Interpreter
pub mod Trace
pub mod Networks
pub mod SecretFiles
pub mod Images
pub mod Containers
pub mod Nodes
pub mod Execute
pub mod Configuration
pub mod Observer
pub mod Tests
pub mod Health
