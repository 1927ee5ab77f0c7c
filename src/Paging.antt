-- ===== src/Paging.antt =====
-- The boot page table (include/paging.hpp and `createPageTable` of src/vm.cpp).
mod Defs
mod Fill
mod Walk
mod Identity
mod Examples
unfoldable pub use Defs.*
unfoldable pub use Walk.*
unfoldable pub use Identity.*
