-- ===== src/Isolation.antt =====
-- The child's side of the sandbox, up to the call of `exec`: sandbox_isolation.cpp.
pub mod SetupError
pub mod Rootfs
pub mod Descriptors
pub mod RunChild
pub mod CompileChild
pub mod RootfsCorrect
pub mod Closing
pub mod BaseName
pub mod Steps
pub mod Lockdown
pub mod Confinement
