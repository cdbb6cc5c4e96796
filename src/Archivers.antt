-- ===== src/Archivers.antt =====
-- pfp_runtime/publishing/archivers: where the artifacts are kept.
pub mod S3
mod Tests
