-- ===== src/Auth.antt =====
-- apps/api/internal/auth: roles and permissions, the session store, token rotation and the guards
-- of the HTTP routes.
pub mod Roles
pub mod Store
pub mod Sessions
pub mod Index
pub mod Rotation
pub mod Tokens
pub mod Guards
