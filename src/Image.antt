-- ===== src/Image.antt =====
-- Package internal/image: images and the registries they come from.
pub mod Auth
pub mod Allowlist
pub mod Archive
