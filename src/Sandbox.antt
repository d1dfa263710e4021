-- ===== src/Sandbox.antt =====
-- The parent's side of the sandbox: sandbox.cpp.
pub mod RequestId
pub mod ExitStatus
pub mod Marker
pub mod Verdict
pub mod Guard
pub mod Watch
pub mod Run
pub mod Workspace
pub mod Compile
pub mod Quiet
pub mod Moves
pub mod Reaping
