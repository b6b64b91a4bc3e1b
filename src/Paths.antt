-- ===== src/Paths.antt =====
-- util/app/path, util/security/path_traversal.go, and the functions of path/filepath they call.
pub mod FilePath
pub mod Glob
pub mod Security
pub mod Refresh
pub mod Plain
pub mod Covered
mod Tests
