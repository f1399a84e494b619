-- ===== src/Rotation.antt =====
-- oeds_ops/password_rotation.py: the rotation of the passwords of a deployment.
pub mod EnvFile
pub mod World
pub mod Hoare
pub mod Rotator
mod Tests
