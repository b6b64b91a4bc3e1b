-- ===== src/Db.antt =====
-- util/db: the secrets that hold repositories and their credentials (repository.go,
-- repository_secrets.go and the helpers of secrets.go).
pub mod Secrets
pub mod Convert
pub mod Backend
pub mod Creds
pub mod Database
mod Tests
