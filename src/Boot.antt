-- ===== src/Boot.antt =====
-- What VM::initRAM puts into guest memory (include/boot.hpp, src/boot.cpp, src/vm.cpp).
mod Header
mod Params
mod Memory
mod Load
mod E820
mod Streams
mod Reads
mod Refines
mod Steps
mod Regions
mod Inversion
mod Fields
pub mod Examples
unfoldable pub use Header.*
unfoldable pub use Params.*
unfoldable pub use Memory.*
unfoldable pub use Load.*
pub use Steps.{IsBootable, header_of, checked_header, kernel_offset}
pub use Regions.{init_ram-load}
pub use E820.{boot_params_of-pointers}
pub use Inversion.{Accepted, init_ram-ok}
