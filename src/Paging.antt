-- ===== src/Paging.antt =====
-- Demand paging: vm.c and the paging metadata of proc.h.
pub mod Queue
pub mod Meta
pub mod Table
pub mod Select
pub mod Swap
pub mod Space
mod Tests
