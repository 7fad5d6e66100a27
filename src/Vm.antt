-- ===== src/Vm.antt =====
-- p3/code/my_vm.c: user-level memory management.
pub mod Scheme
pub mod Address
pub mod Bitmap
pub mod Machine
pub mod Tlb
pub mod Setup
pub mod Paging
pub mod Release
pub mod Values
pub mod Matrix
pub mod Cleanup
mod Tests
