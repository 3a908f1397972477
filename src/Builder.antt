-- ===== src/Builder.antt =====
-- Package internal/builder: how a Dockerfile is read.
pub mod Words
pub mod Json
pub mod Instructions
pub mod Args
pub mod Config
mod Examples
