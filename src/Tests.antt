-- ===== src/Tests.antt =====
-- Concrete states, runs of the code on them, and each result at one of them.
pub mod World
pub mod Registries
pub mod Requests
pub mod Lists
pub mod Library
pub mod Proc
pub mod Life
pub mod Balance
pub mod Example
pub mod Joint
pub mod Create
