-- ===== src/Web.antt =====
-- src/web: how a request is taken apart.
pub mod Http
