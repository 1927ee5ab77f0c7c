-- ===== src/Cmos.antt =====
-- The CMOS RAM and real-time clock (include/cmos.hpp, src/cmos.cpp), ports 0x70 and 0x71.
mod Constants
mod Defs
mod Registers
mod Safety
mod Storage
mod Clock
mod Threads
mod Alone
mod Race
mod Examples
unfoldable pub use Constants.*
unfoldable pub use Defs.*
unfoldable pub use Registers.*
unfoldable pub use Safety.*
unfoldable pub use Storage.*
unfoldable pub use Clock.*
