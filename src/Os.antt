-- ===== src/Os.antt =====
-- The operating system as the engine sees it: what is called, what comes back, and the record of
-- both. The answers are a function of the calls so far, so a theorem over every such function holds
-- for every behaviour of the kernel, of the file system and of the judged program.
mod Calls
pub mod Flow
pub mod Sweeps
pub mod Trace
pub mod Tidy
pub mod Balance
pub mod Yields
pub mod Orphans
pub mod Owner
pub mod Signals
pub use Calls.*
