-- ===== src/Kernel.antt =====
-- src/lkm: the kernel module.
pub mod Outcome
pub mod Objects
pub mod Entries
pub mod State
pub mod Worker
pub mod Scheduler
pub mod CompletionList
pub mod Proc
pub mod Invariant
pub mod Core
pub mod Balance
pub mod Module
pub mod Roundtrip
pub mod Spec
pub mod Valid
