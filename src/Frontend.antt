-- ===== src/Frontend.antt =====
-- frontend/: what every front-end shares.
pub mod Lock
