-- ===== src/Api.antt =====
-- src/models/api.rs: the parts with operations.
pub mod Pagination
pub mod Pages
pub mod Sse
