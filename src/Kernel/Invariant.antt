-- ===== src/Kernel/Invariant.antt =====
-- The requests of src/lkm keep the module's state valid.
pub mod Registries
pub mod Lists
pub mod Tree
pub mod Requests
pub mod Lifetime
pub mod Reach
