-- ===== src/Auth.antt =====
-- libs/auth/src: who may make which request.
pub mod Access
