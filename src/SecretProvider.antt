-- ===== src/SecretProvider.antt =====
-- secret_provider: the client of the provider of secrets, and what is built on it.
pub mod Base64
pub mod Call
pub mod Wire
pub mod Exchange
pub mod Metadata
pub mod Client
pub mod Trace
pub mod Bootstrap
pub mod Resolver
pub mod Policy
mod Tests
